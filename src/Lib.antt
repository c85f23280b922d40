-- ===== src/Lib.antt =====
-- The logic of the task client under ui/src: how tasks are ordered, grouped, filtered, selected and
-- acted on, what the list of tasks shows, which notifications are planned, how points are summed up,
-- how the client keeps its connection to the server's stream of events, what the events do to its cache,
-- and how its API client refreshes tokens while requests wait.
--
-- The parts and their files
--   Prelude        names of the libraries, Boolean tests, equality as an instance, lists, partitions,
--                  integers.
--   Js             scalars and arrays with ===, truthiness, String(x) and Number(x); calls that return
--                  or throw; objects by name and by integer key; the stable sort of arrays.
--   Dates          the clock, the reading of dates and the local calendar, as a record of parameters
--                  with the laws of a calendar; the client's tests on dates.
--   Chores         ui/src/utils/Chores.jsx. Sorter: ChoreSorter. Filters: ChoreFilters, filterByProject.
--                  Grouper: ChoresGrouper with its groupings by date (Buckets), by priority (Buckets)
--                  and by label (Labels).
--   Filter         ui/src/utils/FilterEngine.js. Conditions and DueDate: evaluateCondition and what it
--                  calls. Apply: applyFilter, getFilterCount, getFilterOverdueCount. Validate:
--                  validateFilter.
--   Selection      ui/src/views/Chores/hooks/useMultiSelect.js: one function per callback.
--   Actions        ui/src/views/Chores/hooks/useChoreActions.js. Handle: its handlers of one task. Modals:
--                  those of the dialogs. Bulk: those of the selected tasks, with their requests.
--   TaskView       ui/src/views/Chores/MyChores.jsx with its hooks useChoreFilters.js and
--                  useProjectFilter.js; notInCompletionWindow of ui/src/utils/Chores.jsx. Shortcuts:
--                  ui/src/views/Chores/hooks/useKeyboardShortcuts.js.
--   Saved          ui/src/views/Chores/hooks/useCustomFilters.js. Queries: the storage of filters of
--                  ui/src/views/Filters/FilterQueries.js. Creation: createFilterFromCurrentState. Insights: the cards of
--                  ui/src/views/Chores/SmartInsightsCard.jsx and the quick filters.
--   TaskEdit       ui/src/views/ChoreEdit/ChoreEdit.jsx: the state of its form, its effects and its fields
--                  of date and time. Validate: HandleValidateChore. Load: the effect that loads or copies
--                  a task. Save: HandleSaveChore.
--   SubTasks       ui/src/views/components/SubTask.jsx: its handlers on the list of subtasks. Descendants, Delete
--                  and Complete: the recursions over the parents. Ids: the temporary ids. Drag: onDragEnd.
--   TaskInput      the typed text of a new task. Priority: parsePriority of
--                  ui/src/views/components/CustomParsers.js. Rendering: renderHighlightedSentence of
--                  ui/src/views/components/AddTaskModal.jsx.
--   Notifications  ui/src/views/Chores/LocalNotificationScheduler.js.
--   Points         ui/src/views/User/UserPoints.jsx: its summaries of the history of tasks and its
--                  leaderboard, which Leaderboard states the laws of.
--   Users          ui/src/utils/UserHelpers.js.
--   Settings       ui/src/utils/DurationUtils.js, FeatureToggle.js and SidepanelConfig.js beside it.
--   Timer          ui/src/hooks/useTimer.js: one function per callback, on state and refs as one record.
--   TimerDetails   ui/src/views/Timer/TimerDetails.jsx: the times that it shows (Times). Edits: the edits of a
--                  session and its log. Requests: saving a session and deleting an entry (Deletion).
--   Offline        ui/src/utils/LocalStore.jsx with localStorage, and ui/src/utils/SyncManager.jsx. Merge: the
--                  joining of tasks in ui/src/queries/ChoreQueries.jsx.
--   Network        ui/src/hooks/NetworkManager.jsx, with the queue of requests of ui/src/utils/LocalStore.jsx.
--   Api            Tokens: ui/src/utils/TokenStorage.js. Headers: the headers that the methods of
--                  ui/src/utils/ApiClient.js send. Queue: its request, refreshToken and processQueue
--                  as steps, each of which runs from one await to the next. Server: its init.
--   Sse            ui/src/hooks/useSSE.js. Connection: state and refs as one record, each callback, timer
--                  and handler as a function on it, and every event as a step (Steps). Messages:
--                  handleSSEMessage on the cached queries.
--   Tests          concrete tasks, connections, tokens and messages, and the results at them.
--
-- How they interact. The views call ChoresGrouper, which sorts by ChoreSorter, and applyFilter on the
-- tasks of the cache; the stream's messages change that cache. TaskView chains the hooks as the list of
-- tasks does: project, search, filters of Chores, saved filter, and the impersonated user of Users.
-- Saved evaluates its filters with Filter, and a card of Insights sets the temporary filter of TaskView.
-- Actions.Bulk acts on what Selection has selected. The stream's error handler and the
-- requests of the API client share one refreshToken: in Api.Queue both are callers of it, and in
-- Sse.Connection its result is an event.
--
-- Conventions
--   Numbers are natural numbers; NaN and invalid dates are `none`, and what the code does with them is
--   written out. Instants are milliseconds from 1970 on. A date that is a number is valid up to
--   8640000000000000. The clock is read once in a call of ChoresGrouper.
--   A field that can be missing or of several types is a scalar. Ids of labels are numbers.
--   Loops are structural, but for the decimal digits of a number, which have the number itself as fuel: it
--   is never less than the number of digits before the last, and the recursions of SubTasks: there one more
--   than the height of the tree of subtasks is enough, and on tasks that are their own ancestors the code
--   does not return either.
--   A typed text is a string of UTF-16 units, and only its ASCII letters have capitals. The titles of
--   toasts are written without their symbols. A completion window is not negative.
--   A `connect` that a timer or a handler calls is that of an earlier render; what it has captured is a
--   Closure, which each event source, timeout and awaited refresh carries with it.
--
-- Left out
--   The database branch of ui/src/utils/LocalStore.jsx.
--   Rendering, alerts, logs, navigation, intervals and storage of the settings; the bodies and addresses of
--   requests; the event source itself, which is live or closed, and the clearing of its retry; the last
--   event that is kept for debugging. In the list of tasks the parameters of the address; the parsers of
--   ui/src/views/components/CustomParsers.js other than parsePriority; the cancelling of notifications;
--   the mutations of ui/src/queries/ChoreQueries.jsx while the device is online.
--   The fuzzy search is a parameter, as are the names of days, months and years,
--   the moving of an element
--   in an array by @dnd-kit/sortable, and the library moment. Writing to localStorage
--   does not throw. Messages have the fields of their kind.
pub mod Prelude
pub mod Saved
pub mod Js
pub mod Dates
pub mod Chores
pub mod Filter
pub mod Sse
pub mod Notifications
pub mod Offline
pub mod Network
pub mod Timer
pub mod TimerDetails
pub mod Selection
pub mod Actions
pub mod Points
pub mod SubTasks
pub mod TaskEdit
pub mod Settings
pub mod TaskInput
pub mod Users
pub mod TaskView
pub mod Api
pub mod Tests
