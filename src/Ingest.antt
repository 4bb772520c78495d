-- ===== src/Ingest.antt =====
-- The queue of changes of crates/vrift-vdird/src/ingest.rs, with the events of watch.rs. A path is
-- the text of it, and `rx` is what the channel will deliver before it is closed.
pub mod Deduplication
pub mod Handler
pub mod Applied
pub mod Events
pub mod Batch
pub mod Consumer
use velo_rift.Prelude.Text.{Text, text_beq}
use velo_rift.Prelude.{
  ℕ, List, [], ◌∷◌, Option, none, some, Bool, true, false, ◌||◌, ◌==◌, if◌then◌else◌,
}

pub data IngestEvent : Type 0 where
  file_changed : (path : Text) → IngestEvent
  dir_created : (path : Text) → IngestEvent
  removed : (path : Text) → IngestEvent
  symlink_created : (path target : Text) → IngestEvent

abbrev pub event_path : IngestEvent → Text
event_path (file_changed path) = path
event_path (dir_created path) = path
event_path (removed path) = path
event_path (symlink_created path target) = path

pub data IngestState : Type 0 where
  init loading consumer_ready producers_starting active draining stopped : IngestState

-- the state as the byte that it is stored as
abbrev pub state_code : IngestState → ℕ
state_code init = 0
state_code loading = 1
state_code consumer_ready = 2
state_code producers_starting = 3
state_code active = 4
state_code draining = 5
state_code stopped = 6

-- `From<u8>`
unfoldable pub state_from : ℕ → IngestState
state_from v =
    if v == 0
    then init
    else if v == 1
    then loading
    else if v == 2
    then consumer_ready
    else if v == 3
    then producers_starting
    else if v == 4
    then active
    else if v == 5
    then draining
    else if v == 6
    then stopped
    else init

pub record IngestQueue : Type 0 where
  pub rx : List IngestEvent
  pub state : ℕ
  pub recent : List Text

unfoldable pub new : List IngestEvent → IngestQueue
new rx = record { rx = rx; state = state_code init; recent = [] }

abbrev pub is_valid_transition : IngestState → IngestState → Bool
is_valid_transition init loading = true
is_valid_transition loading consumer_ready = true
is_valid_transition consumer_ready producers_starting = true
is_valid_transition producers_starting active = true
is_valid_transition active draining = true
is_valid_transition draining stopped = true
is_valid_transition _ _ = false

unfoldable pub transition : IngestState → IngestQueue → IngestQueue × Bool
transition new_state q =
    if is_valid_transition (state_from q.state) new_state
    then (record { rx = q.rx; state = state_code new_state; recent = q.recent }, true)
    else (q, false)

unfoldable pub is_recent : Text → List Text → Bool
is_recent path [] = false
is_recent path (known ∷ recent) = let rest = is_recent path recent in text_beq known path || rest

-- `expired` is whether more than the window has passed since the last cleanup
unfoldable pub cleanup_recent : Bool → List Text → List Text
cleanup_recent expired recent = if expired then [] else recent

-- the loop of `next`: the event, what is left in the channel, and the paths seen
unfoldable pub next_from :
    List IngestEvent → List Text → Option IngestEvent × (List IngestEvent × List Text)
next_from [] recent = (none, ([], recent))
next_from (event ∷ rx) recent =
    let skipped = next_from rx recent in
    if is_recent (event_path event) recent
    then skipped
    else (some event, (rx, event_path event ∷ recent))

unfoldable pub next : Bool → IngestQueue → Option IngestEvent × IngestQueue
next expired q =
    let (event, (rx, recent)) = next_from q.rx (cleanup_recent expired q.recent) in
    (event, record { rx = rx; state = q.state; recent = recent })
