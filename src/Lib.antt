-- ===== src/Lib.antt =====
-- vyos-client: the web client of a VyOS router. Pages read the router's configuration as a JSON
-- tree, parse a section of it into typed records, and show a record in a form. Saving a form
-- computes the commands (`set` and `delete` of a path) that lead from the record to the form, and
-- queues them in the pending changes; a commit sends the queue to the router. The session store
-- says who is logged in, and guards the queue at login and logout.
--
-- Files, and the code they are about (paths below frontend/src unless they say otherwise):
--   Base       shared notation; texts (trim, join, ...), numbers as decimal digits, stable sorting
--   Json       lib/configTree.ts: isRecord, asString, asArray, child, isFlagPresent. A JSON object is
--              the list of its entries in the order of Object.entries; a number is its text.
--   Config     lib/vyosApi.ts ConfigOp (Op), lib/configOps.ts multiValueDiffOps (MultiValue), the two
--              loops of lib/dhcpConfigForm.ts diffToOps that every form repeats (Diff), and what is
--              relied on of the router (Router). Router.Fake is the in-memory router of
--              backend/internal/testutil/fakevyos.go and meets all of it.
--   Masking    lib/masking.ts and shared/sensitive-fields.json
--   Store      store/pendingChanges.ts (Pending), store/unsavedCommit.ts (Unsaved),
--              store/session.ts with the 401 handling of lib/api.ts (Session)
--   Commit     components/PendingChangesBar.tsx, hooks/useSafeApply.ts, hooks/useConfirmCountdown.ts and
--              lib/safeApply.ts: the bar's state, what it sends and shows (Commit), its handlers
--              (Handlers), what can happen to it in any order (Steps); proofs in Once, Guards,
--              Requests, Pause, Trial, Window and Life
--   Logs       lib/mergeLogLines.ts
--   Firewall   lib/firewallTypes.ts, firewallParse.ts, firewallRuleForm.ts (RuleForm for the form,
--              Reorder for drag and drop)
--   Nat        lib/natTypes.ts, natParse.ts, natRuleForm.ts, natStaticForm.ts
--   Policy     lib/policyTypes.ts, policyParse.ts, prefixListForm.ts, policyListForm.ts,
--              routeMapForm.ts, localRouteForm.ts
--   Dhcp       lib/dhcpConfigTypes.ts, dhcpConfigParse.ts, dhcpConfigForm.ts; ipv4.ts and
--              dhcpPoolUtilization.ts (Ipv4); dhcpLeases.ts and vyosIdentifier.ts (Leases)
--   Interfaces lib/interfaceTypes.ts, interfaceParse.ts, interfaceConfigForm.ts
--   Container  lib/containerTypes.ts, containerParse.ts (with Paths), containerForm.ts (Form),
--              containerImageMatch.ts and the cleanup of pages/container/ImagesPage.tsx (Images),
--              store/containerImageUpdateChecks.ts and components/container/
--              ContainerImageUpdateCheck.tsx (UpdateCheck, a step relation in Steps)
--   Ha         lib/haTypes.ts, haParse.ts, haVrrpForm.ts, haConntrackSyncForm.ts
--   Warnings   lib/configWarningRules.ts
--   Tests      the theorems at concrete inputs
--
-- Correspondence. A function keeps its name in snake case, a type its name with acronyms as one
-- word. An optional field is an option, `undefined` is `none`. `Number(text)` is modelled on texts
-- of decimal digits, which is what VyOS uses for rule numbers and leases, and is exact, where JavaScript
-- rounds numbers above 2^53; `localeCompare` is an
-- argument of the parsers. `crypto.randomUUID()` is an argument of `add`. An asynchronous function
-- is one step for each way in which its request can end. The router is an argument of every theorem
-- about what commands do: Config.Router states that a `set` with a value is read back, a valueless
-- `set` makes the node present, a `delete` removes it, and a command leaves every path apart from
-- its own alone. The commit bar's requests are values of its state, each with what
-- its handler's closure holds; an event is an edit, a click, an answer or a tick of the clock, and a
-- button that is not shown or is disabled does nothing. The update check of a container is a step
-- relation, which has a step for each click that is possible and each answer that is awaited. Loops are structural recursion, except two
-- that run on fuel: `show`, which is given one more than the number that it prints, and the inner
-- loop of the log merge, which is given its first value and makes it smaller in each round.
--
-- Not modelled: rendering and the other components, pages and hooks, among them the import panel and
-- the power page, which open confirm windows of their own; negative and fractional seconds; HTTP and cookies, the Go
-- backend, and the forms of the other sections, which use the same two loops.
pub mod Base
pub mod Json
pub mod Config
pub mod Masking
pub mod Store
pub mod Commit
pub mod Logs
pub mod Firewall
pub mod Nat
pub mod Policy
pub mod Dhcp
pub mod Interfaces
pub mod Container
pub mod Ha
pub mod Warnings
pub mod Tests
