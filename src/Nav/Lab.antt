-- ===== src/Nav/Lab.antt =====
-- The sections of frontend/src/components/nav.tsx: what is wrong, and where one was going.
use vantric.Prelude.{[], ◌∷◌, some, none}
use vantric.Prelude.Text.{text}
use vantric.Nav.{Section}

abbrev pub overview_section : Section
overview_section = record {
  id = text "overview";
  label = text "Cloud overview";
  prefix = text "/overview";
  home = text "/overview";
  description =
      text "Problems worth your attention, and how much of everything the lab is running.";
  items = [];
  groups = [];
}

abbrev pub shortcuts_section : Section
shortcuts_section = record {
  id = text "shortcuts";
  label = text "Shortcuts";
  prefix = text "/shortcuts";
  home = text "/shortcuts";
  description = text "";
  items = [];
  groups = [];
}

abbrev pub security_section : Section
security_section = record {
  id = text "security";
  label = text "Security";
  prefix = text "/security";
  home = text "/security/overview";
  description = text "Security findings across the lab.";
  items = [];
  groups =
      record {
        label = text "Security Command Center";
        items =
            record {
              label = text "Overview";
              to = text "/security/overview";
              hint =
                  some (text "Known-exploited vulnerabilities that are actually on your machines");
            }
            ∷ record {
              label = text "Vulnerabilities";
              to = text "/security/vulnerabilities";
              hint = some (text "Known CVEs across the estate, exploited ones first");
            }
            ∷ record {
              label = text "Host assessment";
              to = text "/security/host-assessment";
              hint = some (text "One endpoint at a time");
            }
            ∷ [];
      }
      ∷ record {
        label = text "Settings";
        items =
            record {
              label = text "Vulnerability data";
              to = text "/security/settings/vulnerability-data";
              hint = some (text "Where CVE descriptions and scores come from, and how fast");
            }
            ∷ [];
      }
      ∷ [];
}

abbrev pub monitoring_section : Section
monitoring_section = record {
  id = text "monitoring";
  label = text "Monitoring";
  prefix = text "/monitoring";
  home = text "/monitoring/overview";
  description =
      text
        "What your monitoring service says is on fire, and which guests aren't being watched at all.";
  items =
      record { label = text "Overview"; to = text "/monitoring/overview"; hint = none }
      ∷ record {
        label = text "Problems";
        to = text "/monitoring/problems";
        hint = some (text "What the monitoring service says is wrong, and since when");
      }
      ∷ record {
        label = text "Hosts";
        to = text "/monitoring/hosts";
        hint = some (text "What it watches, joined to the instances this console runs");
      }
      ∷ [];
  groups =
      record {
        label = text "Settings";
        items =
            record {
              label = text "Monitoring service";
              to = text "/monitoring/settings/service";
              hint = some (text "The monitoring service this console reads");
            }
            ∷ [];
      }
      ∷ [];
}
