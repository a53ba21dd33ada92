-- ===== src/Lib.antt =====
-- The TypeScript console of Vantric (frontend/src): the parts of it that compute.
--
-- The console is a React application that talks to its server through one client. What is modelled
-- is the logic that its pages share:
--   * Validation: frontend/src/validation.ts, the tests that the forms put to their fields. Each
--     helper keeps its name (resourceNameError is resource_name_error) and returns a message or none.
--   * Roles: frontend/src/roles.ts and usePermissions of frontend/src/user.ts, what the bindings of
--     an account grant on each section.
--   * Dns: frontend/src/dnsRecords.ts, the grouping of records into sets (Sets, by keys; Grouped, by names
--     and types).
--   * Client: frontend/src/api/client.ts. Client/Wire is the shape of a request, Client/Accounts to
--     Client/Containers are the methods of `api`, each a constructor whose request is given by a
--     function, Client/Calls joins them, Client/Queries holds the query strings, Client/Encode
--     the platform's encodings, and Client/Session is `request`, the upload streams and the
--     listeners that are told when a session has ended.
--   * Recheck: useSession of frontend/src/user.ts, the one check that a burst of 401s asks for.
--   * Tunnel: frontend/src/guacTunnel.ts, the remote desktop's tunnel as steps on its state; Tunnel/Wire
--     is its wire format, Tunnel/Wire/Decode a reader of it, and Tunnel/Delivery what arrives.
--   * Remediation: frontend/src/remediation.ts, with the ranks of frontend/src/severity.ts: the
--     grouping of packages (Worst, ByProduct), the sorted list that is made of it (Items, ByWorst, Ordered,
--     Together) and the comparison of operating systems (Os, Newest). A CVSS score is a number of tenths, and `localeCompare` a
--     parameter.
--   * Nav: the sections of frontend/src/components/nav.tsx with their pages (Lab to Console, joined in
--     Table), the routes of frontend/src/App.tsx (Routes), the guard of
--     frontend/src/components/RequireRole.tsx (Guard) and the menu of frontend/src/components/Shell.tsx
--     (Menu). The documents are those of frontend/src/docs/index.ts.
--   * Table: what frontend/src/components/DataTable.tsx adds to its table library: the filter of a
--     column, the requests for another page or order, the selection, and the report of the rows that
--     match.
--   * TimeRange (frontend/src/timeRange.ts): the presets, the shorthand and the test of a row. A time
--     is a count of milliseconds; the platform's reading of a date and its ISO form are parameters.
--   * Retention (frontend/src/components/RetentionBuilder.tsx) and Schedule
--     (frontend/src/components/ScheduleBuilder.tsx): what the builders of backup jobs write, and what
--     the first reads back.
--   * OsIdentity: frontend/src/osIdentity.ts, the system that a template's name, tags and description
--     give away; its expressions run on Prelude/Pattern, which captures groups.
--   * Format: frontend/src/format.ts on whole counts, which are divided exactly where the code has
--     doubles.
--   * CreateInstance: the form of frontend/src/pages/CreateInstancePage.tsx as steps on its fields (Fields,
--     CloudInit), the order of versions (Versions), and the request that it submits. The lists of the
--     server do not change while the form is open; `Number(n) || 0` is a parameter.
--   * Bell: frontend/src/components/NotificationBell.tsx, which operations have landed and what is asked for
--     again then.
--   * Policies (frontend/src/storagePolicy.ts), Paged (frontend/src/components/usePaged.tsx), Bulk
--     (frontend/src/bulk.ts), Favorites (frontend/src/favorites.ts), Serial (frontend/src/serial.ts),
--     Connect (frontend/src/connect.ts) and Reverse (frontend/src/reverseDns.ts): smaller helpers of
--     the pages.
-- Roles feeds on what Client brings, Nav asks Roles what an account may see, Recheck is a listener of
-- Client/Session, and the pages put what Validation lets through into the calls of Client.
-- Prelude holds the shared names and the text model, Regex the matcher of regular expressions.
--
-- A text is the list of its UTF-16 code units. A message is an Option, none where the code returns
-- null. `toLowerCase` of the platform is a parameter wherever the Unicode tables matter; the bodies
-- that callers hand to the client, and the JSON that comes back, are type parameters, with `error_of`
-- for the field `error`. Numbers are natural numbers, a time one from 1970 on and a part of a version too, except in the number fields of the forms, where
-- NaN, fractions and negative numbers are cases of their own. Printing a number takes as much fuel as
-- the number itself, which is enough, since a round divides by ten. A set of listeners is the list of
-- their numbers, in the order in which they came.
--
-- Not modelled: the other pages and forms, which render and hold what is typed; the query cache, the router's
-- matching and the table library that they use; of the files above, dayRange, aroundRange and toLocalInput,
-- which are calls of the platform's Date, formatPercent, which prints a fraction, the cells of tables and
-- the labels and colours of display; and the server in Go.
pub mod Prelude
pub mod Regex
pub mod Bell
pub mod Bulk
pub mod Client
pub mod Connect
pub mod CreateInstance
pub mod Dns
pub mod Favorites
pub mod Format
pub mod Nav
pub mod OsIdentity
pub mod Paged
pub mod Policies
pub mod Recheck
pub mod Remediation
pub mod Retention
pub mod Reverse
pub mod Roles
pub mod Schedule
pub mod Serial
pub mod Table
pub mod TimeRange
pub mod Tunnel
pub mod Validation
