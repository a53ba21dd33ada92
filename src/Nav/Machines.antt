-- ===== src/Nav/Machines.antt =====
-- The sections of frontend/src/components/nav.tsx: the machines and what runs on them.
use vantric.Prelude.{[], ◌∷◌, some, none}
use vantric.Prelude.Text.{text}
use vantric.Nav.{Section}

abbrev pub compute_section : Section
compute_section = record {
  id = text "compute";
  label = text "Compute";
  prefix = text "/compute";
  home = text "/compute/overview";
  description =
      text
        "Virtual machines and containers on your hypervisors, with the images, disks and templates behind them.";
  items = record { label = text "Overview"; to = text "/compute/overview"; hint = none } ∷ [];
  groups =
      record {
        label = text "Instances";
        items =
            record {
              label = text "Virtual machines";
              to = text "/compute/instances";
              hint = some (text "Create, start, stop and inspect virtual machines");
            }
            ∷ record {
              label = text "Containers";
              to = text "/compute/containers";
              hint = some (text "System containers discovered on your servers");
            }
            ∷ [];
      }
      ∷ record {
        label = text "Storage";
        items =
            record {
              label = text "Datastores";
              to = text "/compute/datastores";
              hint = some (text "Storage pools everything else sits on");
            }
            ∷ record {
              label = text "Disks";
              to = text "/compute/disks";
              hint = some (text "Virtual disks attached to instances");
            }
            ∷ record {
              label = text "Snapshots";
              to = text "/compute/snapshots";
              hint = some (text "Point-in-time VM snapshots");
            }
            ∷ record {
              label = text "Backups";
              to = text "/compute/backups";
              hint = some (text "Guest backup archives held on your datastores");
            }
            ∷ record {
              label = text "Backup schedules";
              to = text "/compute/backup-schedules";
              hint = some (text "Your hypervisors' backup jobs, and what no job covers");
            }
            ∷ [];
      }
      ∷ record {
        label = text "Images and media";
        items =
            record {
              label = text "VM templates";
              to = text "/compute/vm-templates";
              hint =
                  some (text "Sources instances are cloned from; build new ones from cloud images");
            }
            ∷ record {
              label = text "Container templates";
              to = text "/compute/ct-templates";
              hint = some (text "Root filesystems containers are created from");
            }
            ∷ record {
              label = text "Cloud images";
              to = text "/compute/cloud-images";
              hint = some (text "Disk images to build VM templates from");
            }
            ∷ record {
              label = text "ISOs";
              to = text "/compute/isos";
              hint = some (text "Installer media, imported by URL or upload");
            }
            ∷ [];
      }
      ∷ record {
        label = text "Infrastructure";
        items =
            record {
              label = text "Nodes";
              to = text "/compute/nodes";
              hint =
                  some
                    (text "The virtualization hosts your guests run on, and how loaded they are");
            }
            ∷ record {
              label = text "Hypervisors";
              to = text "/compute/hypervisors";
              hint = some (text "Virtualization hosts backing everything else");
            }
            ∷ [];
      }
      ∷ [];
}

abbrev pub docker_section : Section
docker_section = record {
  id = text "docker";
  label = text "Docker";
  prefix = text "/docker";
  home = text "/docker/overview";
  description = text "Container workloads running on your Docker hosts.";
  items = record { label = text "Overview"; to = text "/docker/overview"; hint = none } ∷ [];
  groups =
      record {
        label = text "Workloads";
        items =
            record {
              label = text "Containers";
              to = text "/docker/containers";
              hint = some (text "Every container across your hosts, grouped by compose stack");
            }
            ∷ [];
      }
      ∷ record {
        label = text "Resources";
        items =
            record {
              label = text "Images";
              to = text "/docker/images";
              hint = some (text "What is pulled, what it costs in disk, and what nothing uses");
            }
            ∷ record {
              label = text "Volumes";
              to = text "/docker/volumes";
              hint = some (text "Where container data actually lives");
            }
            ∷ record {
              label = text "Networks";
              to = text "/docker/networks";
              hint = some (text "Bridges the containers talk over");
            }
            ∷ [];
      }
      ∷ record {
        label = text "Settings";
        items =
            record {
              label = text "Docker hosts";
              to = text "/docker/settings/hosts";
              hint =
                  some (
                    text "The daemons this console reaches, and the certificate each must present");
            }
            ∷ [];
      }
      ∷ [];
}

abbrev pub devices_section : Section
devices_section = record {
  id = text "devices";
  label = text "Devices";
  prefix = text "/devices";
  home = text "/devices/overview";
  description = text "Machines your inventory service tracks, physical and virtual.";
  items = record { label = text "Overview"; to = text "/devices/overview"; hint = none } ∷ [];
  groups =
      record {
        label = text "Inventory";
        items =
            record {
              label = text "Physical hosts";
              to = text "/devices/physical-hosts";
              hint =
                  some
                    (text "Laptops, desktops and bare metal — machines this console does not run");
            }
            ∷ record {
              label = text "Virtual hosts";
              to = text "/devices/virtual-hosts";
              hint = some (text "Guests running an agent, matched to instances by system UUID");
            }
            ∷ record {
              label = text "Installers";
              to = text "/devices/installers";
              hint = some (text "Agent packages a new machine can fetch with one command");
            }
            ∷ [];
      }
      ∷ record {
        label = text "Settings";
        items =
            record {
              label = text "Inventory service";
              to = text "/devices/settings/inventory";
              hint = some (text "The agent fleet this section reads (FleetDM)");
            }
            ∷ [];
      }
      ∷ [];
}
