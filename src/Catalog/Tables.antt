-- ===== src/Catalog/Tables.antt =====
-- The tables of shellagent/catalog/permission_catalog.go.
use dynapp_agent.Prelude.{String, List, [], ◌∷◌}

pub record PermissionGroup : Type 0 where
  pub id : String
  pub title : String
  pub summary : String

abbrev pub dangerous_permissions : List String
dangerous_permissions = "secrets.manage" ∷ "agent.session" ∷ "apps.publish" ∷ []

abbrev pub very_high_permissions : List String
very_high_permissions =
    "screen.capture" ∷ "secrets.manage" ∷ "apps.publish" ∷ "apps.detach" ∷ "agent.session"
    ∷ "system.processes.terminate" ∷ "workspaces.shared.manage" ∷ "permissions.manage" ∷ []

abbrev pub high_permissions : List String
high_permissions =
    "fs.exec" ∷ "fs.execFile" ∷ "fs.execTerminal" ∷ "net.tcp.connect" ∷ "net.udp.connect"
    ∷ "net.tcp.listen" ∷ "net.udp.bind" ∷ "globalShortcut" ∷ "tray.manage" ∷ []

abbrev pub high_permission_prefixes : List String
high_permission_prefixes =
    "fs.write" ∷ "fs.copy" ∷ "fs.pack" ∷ "fs.move" ∷ "fs.trash" ∷ "fs.remove" ∷ "fs.mkdir"
    ∷ "dialog.save" ∷ "apps.install" ∷ "apps.uninstall" ∷ "workspaces.shared.write" ∷ "shortcut."
    ∷ "fileAssociations." ∷ []

abbrev pub medium_permission_prefixes : List String
medium_permission_prefixes =
    "fs." ∷ "file." ∷ "externalOpen." ∷ "sessions." ∷ "workspaces." ∷ "remoteEnv." ∷ "search."
    ∷ "clipboard." ∷ "calendar." ∷ "system.ports." ∷ "net." ∷ "web." ∷ "drag." ∷ "drop."
    ∷ "dialog.open" ∷ "dialog.pick" ∷ []

abbrev pub permission_groups : List PermissionGroup
permission_groups =
    record {
      id = "files";
      title = "Files you choose";
      summary = "Open and save files through the system picker. The app only sees what you pick.";
    }
    ∷ record {
      id = "filesystem";
      title = "Files on this computer";
      summary = "Read and change files and folders without asking each time.";
    }
    ∷ record {
      id = "execute";
      title = "Run programs";
      summary = "Start other programs or stop processes on this computer.";
    }
    ∷ record {
      id = "network";
      title = "Network";
      summary = "Talk to servers, websites, and devices on the network.";
    }
    ∷ record {
      id = "workspaces";
      title = "Workspaces";
      summary = "Keep documents on this device and optionally share them with your other devices.";
    }
    ∷ record {
      id = "remote";
      title = "Remote environments";
      summary = "Use a paired computer for files, network, and tools.";
    }
    ∷ record {
      id = "store";
      title = "Apps and account";
      summary = "Browse, install, launch, and publish DynApps with your Dyner account.";
    }
    ∷ record {
      id = "agent";
      title = "Coding agent";
      summary = "Let an assistant inspect and change this app on your behalf.";
    }
    ∷ record {
      id = "secrets";
      title = "Secrets";
      summary = "Read and store credentials for this app.";
    }
    ∷ record {
      id = "device";
      title = "This device";
      summary = "Clipboard, notifications, shortcuts, calendar, and window controls.";
    }
    ∷ []
