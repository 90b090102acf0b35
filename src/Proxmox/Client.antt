-- ===== src/Proxmox/Client.antt =====
-- pkg/proxmox/client.go and pkg/proxmox/errors.go: one authenticated request, the errors of the
-- API, and the wait for a task.
pub mod Wait
use proxclt.Base.{
  ℕ, zero, suc, ◌==◌, ltb, leb, has_byte, ◌+◌, ◌-◌, ◌/◌, ◌%◌, Str, lit, concat, itoa, str_eq,
  is_empty, contains, to_lower, trim_space, Bool, true, false, not, ◌&&◌, ◌||◌, if◌then◌else◌,
  Option, none, some, List, [], ◌∷◌, Error, errorf, wrapf, api, join, vm_not_found,
  snapshot_not_found, storage_not_found, unknown_schema, chain_broken, hash_mismatch, foreign,
  Result, ok, err,
}
use proxclt.Config.Model.{Dict, Value, null, bool, int, string, slice, mapping, Fields}
use proxclt.Config.Validate.{value_at}
use proxclt.World.{
  Method, get, post, delete, Body, no_body, Request, request, slept, Reply, failed, replied,
  Envelope, Host, Action, return, record_event, give_up, ◌>>=◌, ◌>>◌, changing, within,
}

unfoldable pub vm_path : Str → ℕ → Str
vm_path node vmid = concat (lit "/nodes/" ∷ node ∷ lit "/qemu/" ∷ itoa vmid ∷ [])

-- The error of a reply that is not 2xx, from what its body decodes to.
unfoldable pub api_error : ℕ → Str → Option Envelope → Error
unfolding trim_space is_empty
api_error status body none = api status (trim_space body) []
api_error status body (some e) = elim e.errors [
  | [] ↦ api status (if is_empty e.message then trim_space body else e.message) []
  | f ∷ fs ↦ api status e.message (f ∷ fs)
]

-- What a 2xx reply gives where the caller wants its data.
unfoldable pub data_of : ℕ → Option Envelope → Result Value
data_of status none = err (errorf "proxmox: decode envelope: %w" [])
data_of status (some e) = elim e.errors [
  | [] ↦ ok e.content
  | f ∷ fs ↦ err (api status [] (f ∷ fs))
]

unfoldable pub answer : Host → Reply → Result Value
unfolding api_error data_of
answer host (failed e) = err (wrapf "proxmox: request failed: %w" [] e)
answer host (replied status body) =
    if ltb status 200 || not (ltb status 300)
    then err (api_error status body (host.decode body))
    else data_of status (host.decode body)

-- Client.Do with a pointer to decode into; the decoded data is the null value where there is none.
unfoldable pub call : Method → Str → Body → Action Value
unfolding answer
call method path body host hist =
    let sent = request (record { method = method; path = path; body = body }) ∷ hist in
    (answer host (host.reply sent), sent)

-- What a 2xx reply gives where the caller wants no data; a body that does not decode is ignored.
unfoldable pub checked_errors : ℕ → Option Envelope → Result (Unit {0})
checked_errors status none = ok tt
checked_errors status (some e) = elim e.errors [
  | [] ↦ ok tt
  | f ∷ fs ↦ err (api status [] (f ∷ fs))
]

unfoldable pub plain_answer : Host → Reply → Result (Unit {0})
unfolding api_error checked_errors
plain_answer host (failed e) = err (wrapf "proxmox: request failed: %w" [] e)
plain_answer host (replied status body) =
    if ltb status 200 || not (ltb status 300)
    then err (api_error status body (host.decode body))
    else checked_errors status (host.decode body)

-- Client.Do with nil to decode into.
unfoldable pub send : Method → Str → Body → Action (Unit {0})
unfolding plain_answer
send method path body host hist =
    let sent = request (record { method = method; path = path; body = body }) ∷ hist in
    (plain_answer host (host.reply sent), sent)

-- json.Unmarshal of the data into a string.
unfoldable pub as_upid : Value → Result Str
as_upid null = ok []
as_upid (string s) = ok s
as_upid (bool b) = err (errorf "proxmox: decode data: %w" [])
as_upid (int n) = err (errorf "proxmox: decode data: %w" [])
as_upid (slice xs) = err (errorf "proxmox: decode data: %w" [])
as_upid (mapping fs) = err (errorf "proxmox: decode data: %w" [])

-- The fields of TaskStatus that WaitForTask reads.
pub record TaskStatus : Type 0 where
  pub status : Str
  pub exit_status : Str

unfoldable pub task_fields : Result Str → Result Str → Result TaskStatus
task_fields (ok status) (ok exit_status) =
    ok (record { status = status; exit_status = exit_status })
task_fields (ok status) (err e) = err e
task_fields (err e) exit_status = err e

unfoldable pub as_task : Value → Result TaskStatus
unfolding as_upid task_fields value_at
as_task null = ok (record { status = []; exit_status = [] })
as_task (mapping fs) =
    task_fields (as_upid (value_at (lit "status") fs)) (as_upid (value_at (lit "exitstatus") fs))
as_task (bool b) = err (errorf "proxmox: decode data: %w" [])
as_task (int n) = err (errorf "proxmox: decode data: %w" [])
as_task (slice xs) = err (errorf "proxmox: decode data: %w" [])
as_task (string s) = err (errorf "proxmox: decode data: %w" [])

-- The bytes that url.PathEscape leaves: letters, digits, and these marks.
unfoldable pub stays_in_path : ℕ → Bool
unfolding has_byte lit
stays_in_path c =
    (leb b'a' c && leb c b'z')
    || (leb b'A' c && leb c b'Z')
    || (leb b'0' c && leb c b'9')
    || has_byte c (lit "-_.~$&+:=@")

-- A digit of "0123456789ABCDEF"
unfoldable pub hex_digit : ℕ → ℕ
hex_digit n = if ltb n 10 then b'0' + n else b'A' + (n - 10)

-- url.PathEscape
unfoldable pub path_escape : Str → Str
unfolding stays_in_path hex_digit
path_escape [] = []
path_escape (c ∷ s) =
    let rest = path_escape s in
    if stays_in_path c then c ∷ rest else b'%' ∷ hex_digit (c / 16) ∷ hex_digit (c % 16) ∷ rest

unfoldable pub task_path : Str → Str → Str
unfolding path_escape
task_path node upid =
    concat (lit "/nodes/" ∷ node ∷ lit "/tasks/" ∷ path_escape upid ∷ lit "/status" ∷ [])

unfoldable pub finished : TaskStatus → Bool
finished st = not (is_empty st.status) && not (str_eq st.status (lit "running"))

unfoldable pub exit_of : Str → TaskStatus → Result (Unit {0})
exit_of upid st =
    if not (is_empty st.exit_status) && not (str_eq st.exit_status (lit "OK"))
    then err (errorf "proxmox: task %s failed: %s" (upid ∷ st.exit_status ∷ []))
    else ok tt

unfoldable pub poll : Str → Str → Action TaskStatus
unfolding call as_task task_path
poll node upid =
    within "proxmox: poll task %s: %w" (upid ∷ [])
      (call get (task_path node upid) no_body >>= λ v. return (as_task v))

-- The loop of WaitForTask, while the context lasts for `n` more timers.
unfoldable pub wait_from : ℕ → Str → Str → Action (Unit {0})
unfolding poll finished exit_of
wait_from zero node upid = do
  st ← poll node upid
  if finished st then return (exit_of upid st) else give_up
wait_from (suc n) node upid = do
  st ← poll node upid
  if finished st then return (exit_of upid st) else record_event slept >> wait_from n node upid

unfoldable pub wait_for_task : Str → Str → Action (Unit {0})
unfolding wait_from
wait_for_task node upid host hist =
    if is_empty upid
    then (err (errorf "proxmox: empty UPID" []), hist)
    else wait_from host.patience node upid host hist

-- `if upid == "" { return nil }; return c.WaitForTask(…)`
unfoldable pub settle : Str → Str → Action (Unit {0})
unfolding wait_for_task
settle node upid = if is_empty upid then return (ok tt) else wait_for_task node upid

unfoldable pub says_missing : Str → Bool
says_missing m =
    contains (to_lower m) (lit "does not exist") || contains (to_lower m) (lit "no such")

unfoldable pub any_says_missing : Dict Str → Bool
unfolding says_missing
any_says_missing [] = false
any_says_missing ((k, v) ∷ rest) = says_missing v || any_says_missing rest

-- isNotFound of pkg/proxmox/vm.go
unfoldable pub is_not_found : Error → Bool
unfolding says_missing any_says_missing
is_not_found (api status message fields) =
    (status == 404)
    || says_missing message
    || any_says_missing fields
    || ((status == 500)
        && elim fields [ [] ↦ true | _ ∷ _ ↦ false ]
        && str_eq (trim_space message) (lit "{\"data\":null}"))
is_not_found (errorf f args) = false
is_not_found (wrapf f args e) = false
is_not_found (Error.join d e) = false
is_not_found (foreign s) = false
is_not_found vm_not_found = false
is_not_found snapshot_not_found = false
is_not_found storage_not_found = false
is_not_found unknown_schema = false
is_not_found chain_broken = false
is_not_found hash_mismatch = false

unfoldable pub missing_as : Error → Error → Error
unfolding is_not_found
missing_as missing e = if is_not_found e then missing else e

-- A mutating call: the request, then the wait for the task it returned.
unfoldable pub submit : Method → Str → Str → Body → Action (Unit {0})
unfolding call as_upid settle
submit method node path body = do
  v ← call method path body
  upid ← return (as_upid v)
  settle node upid

-- The same, where the error of a missing object is replaced in the request, not in the wait.
unfoldable pub submit_existing : Error → Method → Str → Str → Body → Action (Unit {0})
unfolding call as_upid settle missing_as
submit_existing missing method node path body = do
  v ← changing (missing_as missing) (call method path body)
  upid ← return (as_upid v)
  settle node upid
