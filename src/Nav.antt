-- ===== src/Nav.antt =====
-- frontend/src/components/nav.tsx: the sections of the console and the pages that each one lists. The
-- icons, which are components to draw, are left out.
pub mod Lab
pub mod Machines
pub mod Data
pub mod Services
pub mod Console
pub mod Table
pub mod Tests
pub mod Find
pub mod Guard
pub mod Links
pub mod Menu
pub mod Routes
use vantric.Prelude.{Option, some, List, [], ◌∷◌, ◌++◌}
use vantric.Prelude.Text.{Text, text}

pub record SectionItem : Type 0 where
  pub label : Text
  pub to : Text
  pub hint : Option Text

pub record SectionGroup : Type 0 where
  pub label : Text
  pub items : List SectionItem

pub record Section : Type 0 where
  pub id : Text
  pub label : Text
  pub prefix : Text
  pub home : Text
  pub description : Text
  pub items : List SectionItem
  pub groups : List SectionGroup

-- A page of the documentation, less its text.
pub record Doc : Type 0 where
  pub slug : Text
  pub title : Text
  pub summary : Text

abbrev pub docs : List Doc
docs =
    record {
      slug = text "linux-templates";
      title = text "Building a Linux template";
      summary =
          text
            "The guest-side setup that makes Connect work: the guest agent, guest exec on RHEL, sudo, and the serial not to set.";
    }
    ∷ record {
      slug = text "windows-templates";
      title = text "Building a Windows template";
      summary =
          text
            "Built by hand rather than by this console: virtio at install time, the agent, RDP, and why sysprep goes last.";
    }
    ∷ []

abbrev pub doc_item : Doc → SectionItem
doc_item doc = record { label = doc.title; to = text "/docs/" ++ doc.slug; hint = some doc.summary }
