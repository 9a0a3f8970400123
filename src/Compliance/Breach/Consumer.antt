-- ===== src/Compliance/Breach/Consumer.antt =====
-- The loop of `run_consumer` in services/breach_consumer/consumer.py, one message at a time. The
-- clock is read three times for a breach, and starting the workflow may fail.
use project_k_platform.Prelude.{
  ℕ, ◌*◌, ◌≤◌, ◌≡◌, refl, String, Bool, true, false, Option, none, some, List, [], ◌∷◌, ◌++◌, leb,
  arith, length, eq_iff, if◌then◌else◌, Bool-cases, inl, inr,
}
use project_k_platform.Prelude.Dict.{Dict, lookup, insert, lookup-insert}
use project_k_platform.Prelude.Eq.{◌==◌, string_eq}
use project_k_platform.Compliance.Breach.{
  BreachInput, Rule, index_rules, confirmed, detect_breaches,
}
use project_k_platform.Compliance.Breach.Window.{SlidingWindow, add, count, keep-keep_recent}

unfoldable pub map_event_to_rule : String → Option String
map_event_to_rule event_type =
    if event_type == "bulk_pii_access"
    then some "bulk_access"
    else if event_type == "pii_export"
    then some "export_without_dsr"
    else if event_type == "auth_failed"
    then some "failed_auth"
    else none

abbrev pub new_window : Rule → SlidingWindow
new_window r = record {
  window_seconds = r.window_minutes * 60;
  threshold = r.threshold;
  events = [];
}

unfoldable pub make_windows : Dict String Rule → Dict String SlidingWindow
make_windows [] = []
make_windows ((name, r) ∷ rs) = (name, new_window r) ∷ make_windows rs

-- The clock at `add()` and at the two readings of `count`; and whether `start_workflow` returns.
pub record Moment : Type 0 where
  pub added : ℕ
  pub logged : ℕ
  pub counted : ℕ
  pub starts : Bool

-- What `consumer.poll` gives: nothing, an error, a value that is no JSON, or an event.
pub data Message : Type 0 where
  nothing : Message
  failure : Message
  garbled : Message
  event : String → String → Message

abbrev pub Windows : Type 0
Windows = Dict String SlidingWindow

-- A breach: the workflow is started with a fresh count, and then the window is reset; if the start
-- raises, the pruned window stays.
abbrev pub trigger :
    Moment → String → String → Rule → SlidingWindow → Windows → Option BreachInput × Windows
trigger m name actor_id r w ws =
    let w' = (count m.logged w).1 in
    let (n, w'') = count m.counted w' in
    if m.starts
    then (
      some (record {
        rule = name;
        event_count = n;
        window_minutes = r.window_minutes;
        actor_id = actor_id;
      }),
      insert name (new_window r) ws,
    )
    else (none, insert name w'' ws)

abbrev pub after_add :
    Moment → String → String → Rule → Windows → Bool × SlidingWindow → Option BreachInput × Windows
after_add m name actor_id r ws (true, w) = trigger m name actor_id r w ws
after_add m name actor_id r ws (false, w) = (none, insert name w ws)

-- `windows[name]` and `rules[name]` have the same keys.
abbrev pub on_window :
    Moment
    → String
    → String
    → Option SlidingWindow
    → Option Rule
    → Windows
    → Option BreachInput × Windows
on_window m name actor_id none r ws = (none, ws)
on_window m name actor_id (some w) none ws = (none, ws)
on_window m name actor_id (some w) (some r) ws = after_add m name actor_id r ws (add m.added w)

abbrev pub on_rule :
    Moment → String → Option String → Dict String Rule → Windows → Option BreachInput × Windows
on_rule m actor_id none rules ws = (none, ws)
on_rule m actor_id (some name) rules ws =
    on_window m name actor_id (lookup name ws) (lookup name rules) ws

-- One round of the loop: the workflow that it starts, if any, and the windows after it.
unfoldable pub consume :
    Dict String Rule → Moment → Message → Windows → Option BreachInput × Windows
unfolding map_event_to_rule add count
consume rules m nothing ws = (none, ws)
consume rules m failure ws = (none, ws)
consume rules m garbled ws = (none, ws)
consume rules m (event event_type actor_id) ws =
    on_rule m actor_id (map_event_to_rule event_type) rules ws

-- Every window belongs to a rule and has its settings.
abbrev pub IsConfigured : Dict String Rule → Windows → Type 0
IsConfigured rules ws =
    (name : String) (w : SlidingWindow)
    → lookup name ws ≡ some w
    → (r : Rule) × (lookup name rules ≡ some r)
      × (w.window_seconds ≡ r.window_minutes * 60)
      × (w.threshold ≡ r.threshold)

make_windows-IsConfigured : (rules : Dict String Rule) → IsConfigured rules (make_windows rules)
unfolding make_windows
make_windows-IsConfigured [] name w h = cc
make_windows-IsConfigured ((k, r) ∷ rules) name w h = elim (Bool-cases (k == name)) [
  | inl e ↦ (r, rw e, ground arith, ground arith)
  | inr e ↦ rw e (make_windows-IsConfigured rules name w (ground arith))
]

-- Both prunings are idle if the clock stands still since the event was added.
count-add :
    (t : ℕ) (w : SlidingWindow) → (count t (count t (add t w).1).1).0 ≡ length (add t w).1.events
unfolding count add
count-add t w = rw (
  keep-keep_recent t t w.window_seconds (w.events ++ t ∷ []) (omega arith),
  keep-keep_recent t t w.window_seconds (w.events ++ t ∷ []) (omega arith),
)

add-threshold :
    (t : ℕ) (w : SlidingWindow) → (add t w).0 ≡ leb w.threshold (length (add t w).1.events)
unfolding add
add-threshold t w = refl

module _ (cfg : List Rule) (m : Moment) (actor_id : String) (ws : Windows) where
  trigger-confirmed :
      (name : String) (r : Rule) (w : SlidingWindow) {b : BreachInput}
      → lookup name (index_rules cfg []) ≡ some r
      → r.threshold ≤ (count m.counted (count m.logged w).1).0
      → (trigger m name actor_id r w ws).0 ≡ some b
      → (b.rule ≡ name) × (detect_breaches cfg b ≡ confirmed r.threshold b.event_count)
  unfolding detect_breaches
  trigger-confirmed name r w e le h = ground arith

  after_add-confirmed :
      (name : String) (r : Rule) (w : SlidingWindow) {b : BreachInput}
      → m.logged ≡ m.added
      → m.counted ≡ m.added
      → w.threshold ≡ r.threshold
      → lookup name (index_rules cfg []) ≡ some r
      → (after_add m name actor_id r ws (add m.added w)).0 ≡ some b
      → (b.rule ≡ name) × (detect_breaches cfg b ≡ confirmed r.threshold b.event_count)
  after_add-confirmed name r w {b} p q t e h = split (add m.added w) refl h
    where
      split :
          (x : Bool × SlidingWindow)
          → add m.added w ≡ x
          → (after_add m name actor_id r ws x).0 ≡ some b
          → (b.rule ≡ name) × (detect_breaches cfg b ≡ confirmed r.threshold b.event_count)
      split (true, v) a k =
          trigger-confirmed name r v e
            (ground (arith, count-add m.added w, add-threshold m.added w)) k
      split (false, v) a k = cc

  on_window-confirmed :
      (name : String) (w : Option SlidingWindow) (r : Option Rule) {b : BreachInput}
      → m.logged ≡ m.added
      → m.counted ≡ m.added
      → IsConfigured (index_rules cfg []) ws
      → lookup name ws ≡ w
      → lookup name (index_rules cfg []) ≡ r
      → (on_window m name actor_id w r ws).0 ≡ some b
      → (t : ℕ) × (detect_breaches cfg b ≡ confirmed t b.event_count)
  on_window-confirmed name none r p q c d e h = cc
  on_window-confirmed name (some w) none p q c d e h = cc
  on_window-confirmed name (some w) (some r) p q c d e h =
      let (r', e', s, t) = c name w d in
      (r.threshold, (after_add-confirmed name r w p q (ground arith) e h).1)

-- If an event starts a breach workflow and the clock does not move while the event is processed, the
-- workflow's `detect_breaches`, on the same configuration, confirms the breach with the count that it
-- was handed: no started workflow answers that the rule is unknown or the count too low.
pub consume-confirmed :
    (cfg : List Rule) (m : Moment) (event_type actor_id : String) (ws : Windows) {b : BreachInput}
    → m.logged ≡ m.added
    → m.counted ≡ m.added
    → IsConfigured (index_rules cfg []) ws
    → (consume (index_rules cfg []) m (event event_type actor_id) ws).0 ≡ some b
    → (t : ℕ) × (detect_breaches cfg b ≡ confirmed t b.event_count)
unfolding consume
consume-confirmed cfg m event_type actor_id ws {b} p q c h = split (map_event_to_rule event_type) h
  where
    split :
        (name : Option String)
        → (on_rule m actor_id name (index_rules cfg []) ws).0 ≡ some b
        → (t : ℕ) × (detect_breaches cfg b ≡ confirmed t b.event_count)
    split none k = cc
    split (some name) k = on_window-confirmed cfg m actor_id ws name _ _ p q c refl refl k

-- The windows stay configured through any message.
abbrev Fits : Rule → SlidingWindow → Type 0
Fits r w = (w.window_seconds ≡ r.window_minutes * 60) × (w.threshold ≡ r.threshold)

insert-IsConfigured :
    (rules : Dict String Rule) (ws : Windows) (name : String) (r : Rule) (v : SlidingWindow)
    → IsConfigured rules ws
    → lookup name rules ≡ some r
    → Fits r v
    → IsConfigured rules (insert name v ws)
insert-IsConfigured rules ws name r v c e f k w h = elim (Bool-cases (name == k)) [
  | inl q ↦ (
    r,
    ground (arith, eq_iff name k),
    ground (arith, lookup-insert name k v ws),
    ground (arith, lookup-insert name k v ws),
  )
  | inr q ↦ c k w (ground (arith, lookup-insert name k v ws))
]

module _ (rules : Dict String Rule) (m : Moment) (actor_id : String) (ws : Windows) where
  after_add-IsConfigured :
      (name : String) (r : Rule) (x : Bool × SlidingWindow)
      → IsConfigured rules ws
      → lookup name rules ≡ some r
      → Fits r x.1
      → IsConfigured rules (after_add m name actor_id r ws x).1
  unfolding count
  after_add-IsConfigured name r (false, w) c e f = insert-IsConfigured rules ws name r w c e f
  after_add-IsConfigured name r (true, w) c e f = elim (Bool-cases m.starts) [
    | inl q ↦ simp q (insert-IsConfigured rules ws name r (new_window r) c e (refl, refl))
    | inr q ↦ simp q (insert-IsConfigured rules ws name r _ c e f)
  ]

  on_window-IsConfigured :
      (name : String) (w : Option SlidingWindow) (r : Option Rule)
      → IsConfigured rules ws
      → lookup name ws ≡ w
      → lookup name rules ≡ r
      → IsConfigured rules (on_window m name actor_id w r ws).1
  unfolding add
  on_window-IsConfigured name none r c d e = c
  on_window-IsConfigured name (some w) none c d e = c
  on_window-IsConfigured name (some w) (some r) c d e =
      let (r', e', s, t) = c name w d in
      after_add-IsConfigured name r (add m.added w) c e (ground arith, ground arith)

-- The windows that the consumer makes at its start belong each to a rule and have its settings, and
-- every message, whatever it is and whether or not a workflow starts, keeps that so.
pub consume-IsConfigured :
    (rules : Dict String Rule)
    → IsConfigured rules (make_windows rules)
      × ((m : Moment) (msg : Message) (ws : Windows)
          → IsConfigured rules ws
          → IsConfigured rules (consume rules m msg ws).1)
unfolding consume
consume-IsConfigured rules = (make_windows-IsConfigured rules, step)
  where
    by_name :
        (m : Moment) (actor_id : String) (name : Option String) (ws : Windows)
        → IsConfigured rules ws
        → IsConfigured rules (on_rule m actor_id name rules ws).1
    by_name m actor_id none ws c = c
    by_name m actor_id (some name) ws c =
        on_window-IsConfigured rules m actor_id ws name _ _ c refl refl

    step :
        (m : Moment) (msg : Message) (ws : Windows)
        → IsConfigured rules ws
        → IsConfigured rules (consume rules m msg ws).1
    step m nothing ws c = c
    step m failure ws c = c
    step m garbled ws c = c
    step m (event event_type actor_id) ws c = by_name m actor_id (map_event_to_rule event_type) ws c
