-- ===== src/Nav/Services.antt =====
-- The sections of frontend/src/components/nav.tsx: the services that run on them.
use vantric.Prelude.{[], ◌∷◌, some, none}
use vantric.Prelude.Text.{text}
use vantric.Nav.{Section}

abbrev pub identity_section : Section
identity_section = record {
  id = text "identity";
  label = text "Identity Platform";
  prefix = text "/identity";
  home = text "/identity/overview";
  description =
      text
        "The identity provider your lab services sign in through — users, groups, applications and login events.";
  items = record { label = text "Overview"; to = text "/identity/overview"; hint = none } ∷ [];
  groups =
      record {
        label = text "Directory";
        items =
            record {
              label = text "Users";
              to = text "/identity/users";
              hint = some (text "Accounts that can sign in to your services");
            }
            ∷ record {
              label = text "Groups";
              to = text "/identity/groups";
              hint = some (text "What membership grants, and who has it");
            }
            ∷ [];
      }
      ∷ record {
        label = text "Access";
        items =
            record {
              label = text "Applications";
              to = text "/identity/applications";
              hint = some (text "Services users sign in to through this provider");
            }
            ∷ record {
              label = text "Events";
              to = text "/identity/events";
              hint = some (text "Logins, failures and changes, newest first");
            }
            ∷ [];
      }
      ∷ record {
        label = text "Settings";
        items =
            record {
              label = text "Providers";
              to = text "/identity/providers";
              hint = some (text "The identity service this console reads");
            }
            ∷ [];
      }
      ∷ [];
}

abbrev pub ai_section : Section
ai_section = record {
  id = text "ai";
  label = text "Artificial Intelligence";
  prefix = text "/ai";
  home = text "/ai/overview";
  description =
      text
        "What your lab asks of language models, and what answers: requests through the gateway, the providers behind it, and the models running on your own hardware.";
  items = record { label = text "Overview"; to = text "/ai/overview"; hint = none } ∷ [];
  groups =
      record {
        label = text "Gateway";
        items =
            record {
              label = text "Requests";
              to = text "/ai/requests";
              hint = some (text "Every call the lab made to a model, and what answered");
            }
            ∷ record {
              label = text "Providers";
              to = text "/ai/providers";
              hint = some (text "What the gateway can reach, and the keys it holds");
            }
            ∷ record {
              label = text "Virtual keys";
              to = text "/ai/virtual-keys";
              hint = some (text "Which of your services may call it, and what each may reach");
            }
            ∷ record {
              label = text "Budgets";
              to = text "/ai/budgets";
              hint = some (text "What each caller may spend, and how much of it is gone");
            }
            ∷ record {
              label = text "Model prices";
              to = text "/ai/model-prices";
              hint = some (text "What the gateway charges each call against, per million tokens");
            }
            ∷ record {
              label = text "Connection";
              to = text "/ai/connection";
              hint = some (text "How this console reaches the gateway");
            }
            ∷ [];
      }
      ∷ record {
        label = text "Billing";
        items =
            record {
              label = text "Provider accounts";
              to = text "/ai/accounts";
              hint = some (text "What's left where you pay, without a login each");
            }
            ∷ [];
      }
      ∷ [];
}
