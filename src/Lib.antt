-- ===== src/Lib.antt =====
-- ProIdentity Access: the state of the desktop client's front end and of the administrators' web
-- interface, as functions, and what they keep and compute.
--
-- The program has a server (Go, server/), a privileged service on each computer (Go, client/), a
-- desktop front end that shows and steers that service (TypeScript, client/frontend/src), a web
-- interface that calls the server's API (TypeScript, server/webui/src), and mobile apps. This
-- library models the two TypeScript front ends: the stores and calls below their components, and the
-- components that decide something:
--   Base, Async: lists, dictionaries, integers and Boolean tests; `async` functions as state passing. An
--     action of a store takes the store and `W`, the rest of the program's state, and returns or
--     throws. A call that it awaits is a parameter, free to change the store too: that is what
--     other code does while the action waits.
--   Desktop.Types: client/frontend/src/types/index.ts.
--   Desktop.Managed: stores/useManagedStore.ts, one definition for each action (`connect_server`
--     for `connectServer`), and in Actions all entry points as data, to speak of sequences.
--   Desktop.Tunnels, Setup, Traffic, Update, OpenVpn: stores/useTunnelStore.ts, useSetupStore.ts,
--     useTrafficHistory.ts, useUpdateStore.ts and useOpenVPNStore.ts, in the same way. The time is
--     an argument, `localStorage` a field of the update store, and floating-point numbers a record
--     with the one law that is used.
--   Desktop.I18n: i18n/index.ts, with the dictionaries as an argument.
--   Desktop.Active, Format: lib/activeConnections.ts, with the module's map of times as an argument
--     and a result, and lib/format.ts.
--   Desktop.Bridge: wailsbridge.ts, the calls that the stores await. Bindings has the generated
--     bindings as a record, Mocks the data of the browser's mock, Calls the functions.
--   Webui.Auth, Theme: server/webui/src/stores.
--   Webui.Client: server/webui/src/api/client.ts, with the endpoints in Account, Admin, Servers and
--     Profiles and the types of the answers in Webui.Types and Webui.Rows. A request runs on the
--     state of Webui.Auth, whose stored token it carries.
--   Desktop.Main: App.tsx. State puts the stores and the component's own state together, Focus says
--     which connection is shown, Events has the handlers of the service's events, Collect drops the
--     history of what is gone, Connect is `connectManaged` with the loop that waits for an approval,
--     and Actions what the user's commands do. The object of `pushConnectRef` is a place in a list.
--   Desktop.Login: components/LoginSheet.tsx, whose timer is the request that it asks about.
--   Desktop.TotpPrompt: components/TotpPromptSheet.tsx, in the same way.
--   Webui.Topology: server/webui/src/pages/Topology.tsx, from the answer of the server to the graph
--     (Topology), the search along its edges (Search) and what the filters leave of it (Filters).
--   Desktop.Connections: components/ConnectionsList.tsx, its rows (Connections) and its buttons
--     (Handlers), whose state is the list's own beside the rest; Handlers.Closing runs them in
--     Desktop.Main, whose `connect_managed` the list is given.
--   Desktop.Wizard: components/SetupWizard.tsx. The step that signs in is a machine of events, what
--     the user does and what the service answers, and the polls without an answer are part of its
--     state; Steps has the other steps, on the state of Desktop.Setup.
--   Desktop.OpenVpnPanel: components/OpenVPNPanel.tsx, the effect that opens a form (Asking is about
--     it) and what the forms send.
--   Webui.ServerConfig: the configuration tab of server/webui/src/pages/ServerDetail.tsx, with the
--     edits of its rows as data.
--   Webui.History: server/webui/src/pages/ConnectionHistory.tsx, with the user's acts and the ends
--     of the requests as events in Acts.
--   Webui.System: server/webui/src/pages/System.tsx, with a module for each group of tabs: Settings,
--     Roles, Downloads, and Reports for the tables of denials and of the audit log and the health
--     checks. The requests of a table without an answer are part of its state.
--   Webui.People: server/webui/src/pages/access/People.tsx.
--   Webui.Profiles: server/webui/src/pages/WireGuardProfiles.tsx, with the sheet of a profile in
--     Manage.
--   Tests: the theorems at concrete inputs.
--
-- Bounds. A text's placeholders are replaced on fuel, the length of the text and one more, which is
-- enough since each step takes a character. The digits of a number take fuel one more than the
-- number. The search over the graph has a round for each seed, each end of an edge, and one more,
-- which is enough since a node is queued once. The loop that waits for an approval has the 45
-- attempts of the code. All other definitions are structural. Numbers are natural, as the service
-- sends them, but for the ports and priorities of endpoints, which a form can make negative.
--
-- Not modelled: the other React components and pages, and markup, styles and positions throughout; in
-- App.tsx the tray, the windows, the effects at start-up and the timer that clears a pending server;
-- the report downloads, which save a file through the page; the saved language preference; the
-- sharing of the mock's arrays with their readers; and the parts in Go, Kotlin and Swift. The
-- generated bindings, `fetch`, `URLSearchParams`, `encodeURIComponent` and the timer that
-- `withConnectTimeout` races a call with are parameters.
pub mod Base
pub mod Async
pub mod Desktop
pub mod Webui
pub mod Tests
