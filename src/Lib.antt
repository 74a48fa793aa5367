-- ===== src/Lib.antt =====
-- DTSYS: the client-side logic of the device management console.
--
-- DTSYS is a FastAPI server (server/), a Go agent on the managed devices (client/), a React console
-- (frontend/) and a React Native application (mobile/). This library models the TypeScript of the two
-- clients: the parts that decide something, keep a state, or put a format on the wire. The parts meet
-- as follows. The session (Auth) keeps the tokens that every request carries. The alert connection
-- (Sse) holds one stream open, cuts what it reads into messages (Stream), and puts the alerts of the
-- messages into the store (Alerts) that the pages draw. The signed-in layout mounts that connection
-- and the keyboard listeners (Keyboard). Lists are drawn with page links (Pagination), the overview
-- page with widgets (Widgets) and a feed (Activity), and all of them with small helpers (Utils). The
-- pages send their requests through one set of functions (Api); the schedules' page previews its runs
-- (Cron), that of the updates chooses packages and devices (Updates), and the map groups the devices
-- (Network). Navigation says who gets to which page.
--
-- Files and code:
--   Types                 the records of frontend/src/types/index.ts that the parts share
--   Stream                the read loops of frontend/src/hooks/useSSE.ts and useActivityStream.ts:
--                         `buffer.split('\n\n')` is split_blank, `chunks.pop()` pop_last, the data
--                         line's text payload, one turn of the loop feed. The frames come from
--                         server/app/api/v1/event_stream.py (encode, body).
--     Stream/Chunks, Feed, Frames, Lossless: cutting at blank lines, the buffer, the frames, the text
--   Activity              frontend/src/hooks/useActivityStream.ts: a Phase is what the function
--                         `consume` waits for, `settle` what it does with the answer
--     Activity/Window, Cancel: the window of twenty events, the cleanup
--   Alerts                frontend/src/store/alertStore.ts: set_unresolved, add_alert, resolve
--     Alerts/Store, Refinement: the ids, the store as a finite map
--   Sse                   the effect of frontend/src/hooks/useSSE.ts: Conn is what the closure and the
--                         refs hold, a Task is a request, a read or a timer under way, and `step`
--                         settles a task, unmounts the hook, or draws it again
--     Sse/Invariant, Backoff, Unmount, Merge: the invariant, the waits, the end, the alerts
--     Sse/Hooks           the lock that all components with the hook share: run_effect, run_cleanup
--   Keyboard              frontend/src/hooks/useKeyboardShortcuts.ts, the first listener of
--                         frontend/src/components/ui/GlobalSearch.tsx and
--                         frontend/src/store/globalSearchStore.ts
--     Keyboard/Prefix, Shortcuts, Reports: the timer of `g`, the keys, the reports page
--   Auth                  frontend/src/store/authStore.ts with its items in localStorage
--     Auth/Persistence    the store against a reload of the page
--     Auth/Web            the interceptors of frontend/src/api/client.ts
--     Auth/Mobile         those of mobile/src/api/client.ts
--     Auth/SignIn         frontend/src/pages/Login.tsx: handleSubmit over Auth/Web
--   Navigation            frontend/src/App.tsx: the routes, ProtectedRoute and HomeRoute
--     Navigation/Guards   where a location leads with and without a session
--   Network               frontend/src/pages/NetworkMap.tsx: the devices grouped by subnet
--   Pagination            frontend/src/components/ui/Pagination.tsx
--     Pagination/Sets, Layout, Links: sets and sorting, the gaps, the targets
--   Updates               frontend/src/pages/SoftwareUpdates.tsx: search, selection, pages, dispatch
--     Updates/Pages, Reach: the pages of the table, the devices of an update
--   Cron                  frontend/src/utils/cron.ts: parseField is parse_field, nextRuns next_runs
--     Cron/Schedule       the whole schedule: matches, parseCron, nextRuns
--     Cron/Syntax, Split, Fields, Runs: the fields' syntax and meaning, the list of runs
--   Api                   frontend/src/api: the request that each function sends (Api/Accounts,
--                         Devices, Fleet, Call) and the routes of server/app/api/v1/router.py
--                         (Api/Routes); Api/Handlers says which function a call is meant for,
--                         Api/Served compares the two; Api/Pages are requests of pages past
--                         these files, Api/Mobile those of mobile/src
--   Utils                 frontend/src/utils/{tags,time,export}.ts and compareSemver of
--                         frontend/src/pages/DeviceDetail.tsx
--   Queries               the useQuery and useMutation of the console, one definition each (Queries/Fleet,
--                         Accounts, Panels; Writes, Commands): key, request, and the keys marked stale
--     Queries/Reads, Changes, Resources, Paths, Named: all of them, and what their requests name
--     Queries/Keys, Shared, Refresh: keys that are shared, answers that are asked for again
--   Search                the rest of frontend/src/components/ui/GlobalSearch.tsx: an event, then the
--                         effect on the selection (`settle`)
--     Search/Debounce, Selection: the timer of the typed text, the chosen result
--   Processes             frontend/src/components/device/ProcessList.tsx
--     Processes/Order, Headers: the order of the rows, the headers
--   Device                frontend/src/pages/DeviceDetail.tsx: the capture of a screenshot (an event, with
--                         the effects after it) and buildUptimeSegments
--     Device/Timing, Days: the wait for a picture, the strip of days
--     Device/Edits        the rows, tags, groups and forms that one edits
--   Commands              frontend/src/components/device/BulkCommandBar.tsx (Commands/Bulk) and
--                         CommandPanel.tsx (Commands/Panel)
--   Overview              frontend/src/pages/Dashboard.tsx: the filters and the selection
--     Overview/Choice     the selected devices
--   Orgs                  frontend/src/pages/Organizations.tsx
--     Orgs/Slugs          the short name, against the rule of server/app/api/v1/organizations.py
--   Stock                 frontend/src/pages/Inventory.tsx: the filter, importCsv as import_csv
--     Stock/Export        reading a file of server/app/api/v1/inventory.py's export
--   Triage                frontend/src/pages/Alerts.tsx: groupedByDevice, summary, the buttons
--     Triage/Groups       what they hold
--   Reports               frontend/src/pages/Reports.tsx: hours, filteredAlerts, softwareRows
--     Reports/Range, Software: the hours, the table of software
--   Compare               frontend/src/pages/DeviceCompare.tsx: ids as parse_ids, compareRows,
--                         valuesByField, with the link of the bar for several devices
--     Compare/Links, Highlights: the ids in the link, what is highlighted
--   Preferences           frontend/src/store/{themeStore,layoutStore,brandingStore}.ts, main.tsx and
--                         the branding form of frontend/src/pages/Settings.tsx
--     Preferences/Kept    what a load of the page finds
--   Onboarding            frontend/src/pages/Onboarding.tsx: the steps of the wizard
--     Onboarding/Stages   their order
--   Policies              frontend/src/pages/Compliance.tsx: the form of a new policy
--     Policies/Rules      what it sends
--   Packages              frontend/src/components/device/SoftwareTable.tsx: the search and its timers
--     Packages/Searches   what the table is searched for in the end
--   Audit                 frontend/src/pages/AuditLog.tsx
--     Audit/Live          the streams of the live view
--   Handheld              mobile/src/hooks/useAuth.ts, mobile/App.tsx and what mobile/src/screens compute
--     Handheld/Session, Alarms: signing in and out, the alerts
--   Widgets               frontend/src/pages/CustomDashboard.tsx: the layout, dragging, the picker
--     Widgets/Places, Distinct, Layout, Saved: the drop, what every action keeps, the saved layout
--   Prelude               lists, options, tests into Bool and arithmetic over the native naturals;
--                         Prelude/Int are JavaScript's whole numbers, Prelude/Storage a Storage object,
--                         Prelude/Table an object or Map, Prelude/Text texts, Prelude/Text/Split how
--                         they are split and joined, Prelude/Sort a stable sort, Prelude/Sets a Set
--
-- Numbers. A number that the code keeps whole is a natural or an integer; the doubles' limit of 2^53
-- is out of reach for page numbers, delays and counts, and is not modelled. The 32-bit truncation of
-- getTagColor is written out. A text that the code takes apart is the list of its UTF-16 code units;
-- one that it only compares is a String.
--
-- Fuel. Two things in the code can go on for ever: the read loop, and the retry of a web request. The
-- first is a step function that a list of events drives, and needs no fuel. The second
-- (Auth.Web.request) is on fuel, and both what bounds it and what makes it endless are theorems.
-- `visit` follows at most so many redirections; three are enough, since the longest chain goes home
-- and from there to the onboarding or the login. nextRuns gives up after 100000 attempts by itself,
-- and next_runs counts the same. All other recursion is structural.
--
-- Parameters. The server is a parameter of Auth.Web and Auth.Mobile: its answer to each request and
-- to each refresh. JSON is a parameter of Sse and Widgets, Number one of Utils.Semver and Cron, the
-- clock one of Cron, localeCompare one of Processes and Reports, parseISO
-- one of Reports, the mobile server one of Handheld,
-- React Query's comparison of keys one of
-- Queries, and the router's query string one of Compare. What the network and the user do is a list of events.
--
-- Not modelled: the markup and style of the components, React Query itself (it keeps the queries'
-- state), the server and the agent (other languages, beyond the frames of the stream and the
-- table of routes), the decoder of UTF-8, and the router library of the pages.
pub mod Prelude
pub mod Stream
pub mod Types
pub mod Alerts
pub mod Sse
pub mod Keyboard
pub mod Auth
pub mod Pagination
pub mod Utils
pub mod Widgets
pub mod Api
pub mod Cron
pub mod Activity
pub mod Updates
pub mod Navigation
pub mod Network
pub mod Processes
pub mod Search
pub mod Device
pub mod Orgs
pub mod Stock
pub mod Triage
pub mod Reports
pub mod Compare
pub mod Preferences
pub mod Onboarding
pub mod Policies
pub mod Packages
pub mod Handheld
pub mod Overview
pub mod Audit
pub mod Commands
pub mod Queries
