-- ===== src/Lib.antt =====
-- kdelta's web UI and the server behind it: the dashboard that lists the open-source
-- resources of a cluster and shows, for one of them, its versions, the changelog between two
-- versions and an impact assessment.
--
-- The parts, and how they work together. `ResourcesPage` asks the server for the resources and
-- renders one row to each. A row links to `ResourcePage` with the string form of the resource's
-- reference (`Ref`) in the URL. `ResourcePage` parses that reference, asks for the resource's
-- detail and its versions, and on request for a changelog and an assessment, which come as streams
-- and are folded (`Streamed`) while they run. What the queries return is rendered with the label
-- and badge functions (`Enums`) and with links that are let through by protocol (`Links`).
-- `Providers` decides which failed queries are retried, `Sidebar` and `AppSidebar` frame the
-- pages, and `NextConfig` says in which phase the pages are exported or served beside a rewritten
-- API.
--
-- Where the code is, from the repository's root:
--   Ref            apps/app-ui/lib/ref.ts: refToString, parseRef; as an independent description of
--                  the string form, Parse of internal/ref/ref.go (Ref/Server), and the rules of
--                  proto/kdelta/v1/resource.proto for a reference (Ref/Validated)
--   Links          apps/app-ui/lib/links.ts: safeHref, linkLabel
--   Enums          apps/app-ui/lib/enums.ts: enumLabel and the variants of badges
--   Streamed       apps/app-ui/lib/streamed.ts: the reducer of the stream and the query's options;
--                  Cache says what the query library's cache holds under these options
--   Providers      apps/app-ui/app/providers.tsx: terminalCodes and the retry rule
--   NextConfig     apps/app-ui/next.config.ts and apps/docs-ui/next.config.ts
--   ResourcePage   apps/app-ui/app/resource/page.tsx: ResourceDetail's state, what it derives and its
--                  handlers; Prose, Impact and Panels hold the components below it, Page the whole.
--                  Reach is the page over time, History its state by the messages that were sent,
--                  Requests what it requests on the way, and Streams joins it with the cache
--   ResourcesPage  apps/app-ui/app/page.tsx; Scan is the page over time, with its scans and the
--                  listings that are fetched again
--   DocsPage       apps/docs-ui/app/page.tsx and layout.tsx: the documentation site; Sections holds the
--                  parts of its page
--   EchoPage       apps/app-ui/app/echo/page.tsx: a form that sends a message to the server; Submit
--                  has its sessions
--   AppSidebar     apps/app-ui/app/sidebar.tsx: the items, which is active, and the tree (View)
--   Layout         apps/app-ui/app/layout.tsx: the frame around every page; Toggle joins it with the
--                  state of the sidebar
--   Sidebar        packages/ui/src/components/sidebar.tsx: SidebarProvider, its cells, its cookie and
--                  its shortcut; packages/ui/src/hooks/use-mobile.ts. Panel, Controls, Menu and Slots
--                  hold what the components of that file render
--   Ui             packages/ui/src: lib/utils.ts and the other components of the library, a module to
--                  a file or two; Slot holds the shape that most of them share
--   Api            packages/api/src/gen/kdelta/v1: the messages, the enums and the methods
--   Server         the server behind the calls that the UI makes, in Go. Table, Store: the cache,
--                  internal/store/store.go and schema.sql; Scanning, Scan: internal/server/scan.go;
--                  Vers: internal/vers/vers.go; Versions: internal/server/versions.go; Changes,
--                  GetChanges: internal/server/changes.go; AssessImpact: internal/server/impact.go.
--                  ResourcesPage/Opens, Streamed/Events and GetChanges/Stream put the server and the
--                  UI together
--   Upstream       internal/upstream/upstream.go: the client of GitHub, Artifact Hub and the
--                  repositories of charts. Ip: which addresses are public; Egress, Fetch: one request
--                  and its redirects; Sources: the three listings; Listed: the client as the server
--                  calls it
--   Resolve        internal/resolve/resolve.go and internal/server/resolve.go: the upstreams of a
--                  scan's resources. Match, Choice, Helm: internal/resolve/helm.go, how the repository
--                  of a chart is verified and chosen; Scanned joins it with the scan
--   Detect         internal/detect/detect.go; Detect/Helm: internal/detect/helm/helm.go, which makes
--                  resources of the releases of Helm; Helm/Scans joins all three with the server
--   Url            the trimming of URLs that the Go code above shares
--   Prelude, Text, View, Query are shared: list and option helpers, JavaScript's strings, the tree
--                  that a page returns, what a query shows a component. `Ui` has a tree of its own, in
--                  which an element keeps every attribute, since its components hand on what they
--                  are given; the pages' trees name these components and do not expand them.
--
-- How the code is modelled. A component is a function from its props, its state and the results of
-- its queries to a tree of elements (`View.Node`); a handler in the tree is the message that it
-- sends, and one `update` function answers the messages with the setters that the source calls.
-- The resource page over time is a step relation (`ResourcePage.Reach`) in which the user sends
-- messages between renders: a page may send a message only if its tree offers it, and each render
-- has any of the details of the resource, and any of the listings of the stream that it shows, which
-- the server sends while the page is open. The sidebar is a state machine whose actions also return effects (the cookie,
-- the parent's callback). Strings are lists of UTF-16 code units, and on the server of bytes, of
-- which only ASCII ones are looked for. `toLowerCase` is modelled on ASCII, which is all that the
-- names of generated enums hold. A value of a generated enum is a number, since a newer server may
-- send one without a name. Every function is structurally recursive, but for the decimal digits of
-- a number (`Text.decimal`), which run on fuel: one more than the number is enough, since each
-- step makes the number smaller. A client that follows page tokens (`Server.Scan.Paging.follow`)
-- is given a number of requests; one more than there are resources is enough. A fetch, with
-- its redirects, is five requests at most and GitHub's releases are read for three pages at most, as
-- the source has it.
--
-- Taken as parameters or inputs, since they are not the repository's: `twMerge`, `clsx` and `cva`,
-- which put class names together (`Ui.Styling`); the elements of Radix and the icons, which are
-- leaves; the browser's URL parser and its encoding of URL components, the router's search
-- parameters, the query library's results (any status, any data), its cache key and what it makes
-- of an invalidation, the constants of next and of the Connect codes; on the server
-- golang.org/x/mod/semver with the order that it documents, the trimming and the URL parser of the
-- Go library, what the storage of Helm lists, the order in which a map is ranged over, the clock,
-- what the network answers (`Upstream.Fetch.Web`, which may depend on all that was requested
-- before) and how its answers are decoded, and what the agent extracts. The handlers take the
-- detectors, the resolver and the client of the upstream services as parameters too, for which
-- `Detect`, `Resolve` and `Upstream` are filled in where the parts are joined.
--
-- The server's handlers are functions of the cache, the request and the time, which return the
-- answer or the error, the events that were sent, and the cache that is left. Of an error the code
-- is kept, and its text where the source does not format it. A panic, which ends the call, is an
-- error of the detector of Helm. Whether the response of a scan can be marshalled and written is a
-- parameter; the other reads and writes of the cache are taken to meet no error of the database.
-- `slice_stable` stands for the stable
-- sort of the Go library.
--
-- Not modelled: the agent, which calls a model; the assembly of the HTTP server and the command
-- line; the headers, the proxy and the pooled connections of the client of the upstream services;
-- the texts of errors that the source formats; errors of the database, but for the saving of a scan;
-- timestamps; when the query library fetches and drops
-- what it cached; timing; what the class names and Radix make of the trees on the screen; the
-- metadata objects of the two layouts.
pub mod Prelude
pub mod Text
pub mod Ref
pub mod Api
pub mod View
pub mod Links
pub mod Enums
pub mod Streamed
pub mod Query
pub mod Providers
pub mod NextConfig
pub mod Server
pub mod ResourcePage
pub mod ResourcesPage
pub mod AppSidebar
pub mod Layout
pub mod DocsPage
pub mod EchoPage
pub mod Sidebar
pub mod Detect
pub mod Resolve
pub mod Url
pub mod Ui
pub mod Upstream
mod Tests
