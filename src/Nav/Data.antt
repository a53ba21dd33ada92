-- ===== src/Nav/Data.antt =====
-- The sections of frontend/src/components/nav.tsx: their data, and how they connect.
use vantric.Prelude.{[], ◌∷◌, some, none}
use vantric.Prelude.Text.{text}
use vantric.Nav.{Section}

abbrev pub storage_section : Section
storage_section = record {
  id = text "storage";
  label = text "Storage";
  prefix = text "/storage";
  home = text "/storage/buckets";
  description = text "Shared storage for the lab, beyond the disks attached to instances.";
  items = [];
  groups =
      record {
        label = text "Object storage";
        items =
            record {
              label = text "Buckets";
              to = text "/storage/buckets";
              hint = some (text "Object storage across the S3-compatible stores in your lab");
            }
            ∷ record {
              label = text "Access keys";
              to = text "/storage/keys";
              hint =
                  some (text "Credentials for the S3 API, and what each one is allowed to reach");
            }
            ∷ [];
      }
      ∷ record {
        label = text "Settings";
        items =
            record {
              label = text "Object stores";
              to = text "/storage/instances";
              hint = some (text "S3-compatible stores this console manages buckets through");
            }
            ∷ [];
      }
      ∷ [];
}

abbrev pub databases_section : Section
databases_section = record {
  id = text "databases";
  label = text "Databases";
  prefix = text "/databases";
  home = text "/databases/overview";
  description =
      text
        "Database servers running in your lab, with the databases, users and connections inside them.";
  items = record { label = text "Overview"; to = text "/databases/overview"; hint = none } ∷ [];
  groups =
      record {
        label = text "SQL";
        items =
            record {
              label = text "Instances";
              to = text "/databases/instances";
              hint = some (text "Database servers this console connects to");
            }
            ∷ record {
              label = text "Databases";
              to = text "/databases/databases";
              hint = some (text "Every database across your instances");
            }
            ∷ [];
      }
      ∷ [];
}

abbrev pub network_section : Section
network_section = record {
  id = text "network";
  label = text "Network";
  prefix = text "/network";
  home = text "/network/overview";
  description =
      text
        "The networks your lab runs on — VLANs and their subnets, what holds an address, and the hardware carrying it.";
  items =
      record { label = text "Overview"; to = text "/network/overview"; hint = none }
      ∷ record {
        label = text "Subnets";
        to = text "/network/subnets";
        hint = some (text "Address ranges and what each one is for");
      }
      ∷ [];
  groups =
      record {
        label = text "UniFi Network";
        items =
            record {
              label = text "Networks";
              to = text "/network/networks";
              hint = some (text "LANs and VLANs, their subnets and DHCP ranges");
            }
            ∷ record {
              label = text "Clients";
              to = text "/network/clients";
              hint = some (text "What holds an address, leased or reserved");
            }
            ∷ record {
              label = text "Controller";
              to = text "/network/controllers";
              hint = some (text "The network controller this console reads");
            }
            ∷ [];
      }
      ∷ [];
}

abbrev pub dns_section : Section
dns_section = record {
  id = text "dns";
  label = text "DNS";
  prefix = text "/dns";
  home = text "/dns/overview";
  description = text "Internal name resolution for lab services.";
  items = record { label = text "Overview"; to = text "/dns/overview"; hint = none } ∷ [];
  groups =
      record {
        label = text "Zones";
        items =
            record {
              label = text "Zones";
              to = text "/dns/zones";
              hint = some (text "Domains managed through your DNS providers");
            }
            ∷ [];
      }
      ∷ record {
        label = text "Settings";
        items =
            record {
              label = text "Providers";
              to = text "/dns/providers";
              hint = some (text "DNS accounts this console manages zones through");
            }
            ∷ [];
      }
      ∷ [];
}
