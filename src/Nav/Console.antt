-- ===== src/Nav/Console.antt =====
-- The sections of frontend/src/components/nav.tsx: the console itself.
use vantric.Prelude.{[], ◌∷◌, some, none, map}
use vantric.Prelude.Text.{text}
use vantric.Nav.{Section, docs, doc_item}

abbrev pub iam_section : Section
iam_section = record {
  id = text "iam";
  label = text "IAM & Admin";
  prefix = text "/iam";
  home = text "/iam/overview";
  description = text "Who can use this console and what they can do.";
  items = record { label = text "Overview"; to = text "/iam/overview"; hint = none } ∷ [];
  groups =
      record {
        label = text "Access";
        items =
            record {
              label = text "My account";
              to = text "/iam/account";
              hint = some (text "Your profile, password and SSH key");
            }
            ∷ record {
              label = text "Users";
              to = text "/iam/users";
              hint = some (text "Accounts that can sign in to this console");
            }
            ∷ record {
              label = text "Single sign-on";
              to = text "/iam/sign-on";
              hint = some (text "Sign in through the lab's identity provider");
            }
            ∷ record {
              label = text "Branding";
              to = text "/iam/branding";
              hint = some (text "What this console calls itself");
            }
            ∷ record {
              label = text "Activity";
              to = text "/iam/activity";
              hint = some (text "Every change made here, and who made it");
            }
            ∷ [];
      }
      ∷ [];
}

abbrev pub docs_section : Section
docs_section = record {
  id = text "docs";
  label = text "Documentation";
  prefix = text "/docs";
  home = text "/docs";
  description = text "How to set up the things this console talks to.";
  items =
      record {
        label = text "All docs";
        to = text "/docs";
        hint = some (text "Setup guides for the things this console talks to");
      }
      ∷ [];
  groups = record { label = text "Guides"; items = map doc_item docs } ∷ [];
}
