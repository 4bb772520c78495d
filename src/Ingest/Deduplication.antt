-- ===== src/Ingest/Deduplication.antt =====
-- The states of the queue, and which events it delivers (crates/vrift-vdird/src/ingest.rs).
use velo_rift.Ingest.{
  IngestEvent, event_path, IngestState, init, loading, consumer_ready, producers_starting, active,
  draining, stopped, state_code, state_from, IngestQueue, is_valid_transition, transition,
  is_recent, cleanup_recent, next_from, next,
}
use velo_rift.Prelude.Text.{Text, text_beq, text_beq_iff, text_beq_refl}
use velo_rift.Prelude.{
  ℕ, zero, suc, ◌+◌, ◌≤◌, ◌<◌, ◌≡◌, refl, sym, ap, ◌∙◌, List, [], ◌∷◌, Option, none, some, true,
  false, not, ◌&&◌, ◌==◌, if◌then◌else◌, length, arith, Bool-cases, inl, inr,
}

module _ (P : IngestState → Type 0) where
  each_state :
      P init
      → P loading
      → P consumer_ready
      → P producers_starting
      → P active
      → P draining
      → P stopped
      → (s : IngestState) → P s
  each_state a b c d e f g init = a
  each_state a b c d e f g loading = b
  each_state a b c d e f g consumer_ready = c
  each_state a b c d e f g producers_starting = d
  each_state a b c d e f g active = e
  each_state a b c d e f g draining = f
  each_state a b c d e f g stopped = g

state_from-code : (s : IngestState) → state_from (state_code s) ≡ s
unfolding state_from
state_from-code = each_state (λ s. state_from (state_code s) ≡ s) refl refl refl refl refl refl refl

abbrev StepsTo : IngestState → IngestState → Type 0
StepsTo s s' = is_valid_transition s s' ≡ (state_code s' == state_code s + 1)

next_state : (s s' : IngestState) → StepsTo s s'
next_state =
    each_state (λ s. (s' : IngestState) → StepsTo s s')
      (each_state (StepsTo init) refl refl refl refl refl refl refl)
      (each_state (StepsTo loading) refl refl refl refl refl refl refl)
      (each_state (StepsTo consumer_ready) refl refl refl refl refl refl refl)
      (each_state (StepsTo producers_starting) refl refl refl refl refl refl refl)
      (each_state (StepsTo active) refl refl refl refl refl refl refl)
      (each_state (StepsTo draining) refl refl refl refl refl refl refl)
      (each_state (StepsTo stopped) refl refl refl refl refl refl refl)

-- A queue in a state moves to the next state and to no other, and answers whether it did.
pub transition_iff :
    (s s' : IngestState) (q : IngestQueue)
    → q.state ≡ state_code s
    → ((transition s' q).1 ≡ (state_code s' == state_code s + 1))
      × ((transition s' q).0.state
          ≡ (if state_code s' == state_code s + 1 then state_code s' else state_code s))
      × ((transition s' q).0.rx ≡ q.rx)
unfolding transition
transition_iff s s' q at =
    let from : state_from q.state ≡ s = ap state_from at ∙ state_from-code s in
    let valid = next_state s s' in
    elim (Bool-cases (state_code s' == state_code s + 1)) [
      | inl t ↦ rw (from, valid, t) (refl, refl, refl)
      | inr f ↦ rw (from, valid, f) (refl, at, refl)
    ]

abbrev delivered :
    (IngestQueue → List IngestEvent) → Option IngestEvent × IngestQueue → List IngestEvent
delivered rest (none, q) = []
delivered rest (some event, q) = event ∷ rest q

-- repeated calls of `next` inside one window, until the channel is closed
unfoldable pub deliver : ℕ → IngestQueue → List IngestEvent
deliver zero q = []
deliver (suc n) q = delivered (deliver n) (next false q)

-- the first event of each path, unless the path was seen before
abbrev pub firsts : List IngestEvent → List Text → List IngestEvent
firsts [] recent = []
firsts (event ∷ rx) recent =
    let skipped = firsts rx recent in
    let kept = firsts rx (event_path event ∷ recent) in
    if is_recent (event_path event) recent then skipped else event ∷ kept

abbrev pub paths : List IngestEvent → List Text
paths [] = []
paths (event ∷ events) = event_path event ∷ paths events

-- every path once
abbrev pub Distinct : List IngestEvent → Type 0
Distinct [] = Unit {0}
Distinct (event ∷ events) = (is_recent (event_path event) (paths events) ≡ false) × Distinct events

firsts-paths :
    (p : Text) (rx : List IngestEvent) (recent : List Text)
    → is_recent p (paths (firsts rx recent)) ≡ (is_recent p (paths rx) && not (is_recent p recent))
unfolding is_recent
firsts-paths p [] recent = refl
firsts-paths p (event ∷ rx) recent =
    let path = event_path event in
    let skipped = firsts-paths p rx recent in
    let kept = firsts-paths p rx (path ∷ recent) in
    elim (Bool-cases (text_beq path p)) [
      | inl t ↦
          let known : is_recent path recent ≡ is_recent p recent =
            ap (λ n. is_recent n recent) ((text_beq_iff path p).0 t) in
          ground (arith, skipped, kept, known)
      | inr f ↦ ground (arith, skipped, kept)
    ]

firsts-Distinct : (rx : List IngestEvent) (recent : List Text) → Distinct (firsts rx recent)
unfolding is_recent
firsts-Distinct [] recent = tt
firsts-Distinct (event ∷ rx) recent = elim (Bool-cases (is_recent (event_path event) recent)) [
  | inl t ↦ rw (t, firsts) (firsts-Distinct rx recent)
  | inr f ↦
      let path = event_path event in
      let again = firsts-paths path rx (path ∷ recent) in
      let own = text_beq_refl path in
      rw (f, firsts) (ground (arith, again, own), firsts-Distinct rx (path ∷ recent))
]

-- what one call of `next` leaves for the later ones
abbrev AfterNext :
    List IngestEvent → List Text → Option IngestEvent × (List IngestEvent × List Text) → Type 0
AfterNext rx recent (none, _) = firsts rx recent ≡ []
AfterNext rx recent (some event, (rx', recent')) =
    (firsts rx recent ≡ event ∷ firsts rx' recent') × (length rx' < length rx)

AfterNext-skip :
    (event : IngestEvent) (rx : List IngestEvent) (recent : List Text)
    (out : Option IngestEvent × (List IngestEvent × List Text))
    → is_recent (event_path event) recent ≡ true
    → AfterNext rx recent out
    → AfterNext (event ∷ rx) recent out
AfterNext-skip event rx recent (none, _) t h = rw (t, firsts) h
AfterNext-skip event rx recent (some event', (rx', recent')) t h =
    (rw (t, firsts) h.0, omega (arith, h.1))

next_from-AfterNext :
    (rx : List IngestEvent) (recent : List Text) → AfterNext rx recent (next_from rx recent)
unfolding next_from
next_from-AfterNext [] recent = refl
next_from-AfterNext (event ∷ rx) recent = elim (Bool-cases (is_recent (event_path event) recent)) [
  | inl t ↦
      rw t (AfterNext-skip event rx recent (next_from rx recent) t (next_from-AfterNext rx recent))
  | inr f ↦ rw f (rw (f, firsts) refl, omega arith)
]

module _ (state : ℕ) where
  abbrev queue_of : List IngestEvent → List Text → IngestQueue
  queue_of rx recent = record { rx = rx; state = state; recent = recent }

  next-run :
      (rx : List IngestEvent) (recent : List Text)
      (out : Option IngestEvent × (List IngestEvent × List Text))
      → next_from rx recent ≡ out
      → next false (queue_of rx recent) ≡ (out.0, queue_of out.1.0 out.1.1)
  unfolding next cleanup_recent
  next-run rx recent out run =
      ap (λ (o : Option IngestEvent × (List IngestEvent × List Text)). (o.0, queue_of o.1.0 o.1.1))
        run

  after_one :
      (n : ℕ) (rx : List IngestEvent) (recent : List Text)
      (out : Option IngestEvent × (List IngestEvent × List Text))
      → ((rx' : List IngestEvent) (recent' : List Text)
          → length rx' ≤ n
          → deliver n (queue_of rx' recent') ≡ firsts rx' recent')
      → next_from rx recent ≡ out
      → length rx ≤ suc n
      → AfterNext rx recent out
      → deliver (suc n) (queue_of rx recent) ≡ firsts rx recent
  unfolding deliver
  after_one n rx recent (none, rest) ih run le h =
      ap (delivered (deliver n)) (next-run rx recent (none, rest) run) ∙ sym h
  after_one n rx recent (some event, (rx', recent')) ih run le h =
      ap (delivered (deliver n)) (next-run rx recent (some event, (rx', recent')) run)
      ∙ ap (λ (es : List IngestEvent). event ∷ es) (ih rx' recent' (omega (arith, h.1)))
      ∙ sym h.0

  deliver-firsts :
      (n : ℕ) (rx : List IngestEvent) (recent : List Text)
      → length rx ≤ n
      → deliver n (queue_of rx recent) ≡ firsts rx recent
  unfolding deliver
  deliver-firsts zero [] recent le = refl
  deliver-firsts zero (event ∷ rx) recent le = absurd (omega arith)
  deliver-firsts (suc n) rx recent le =
      after_one n rx recent (next_from rx recent) (deliver-firsts n) refl le
        (next_from-AfterNext rx recent)

pub deliver-once :
    (q : IngestQueue)
    → let out = deliver (length q.rx) q in
      (out ≡ firsts q.rx q.recent)
      × Distinct out
      × ((p : Text)
          → is_recent p (paths out) ≡ (is_recent p (paths q.rx) && not (is_recent p q.recent)))
deliver-once q =
    let same = deliver-firsts q.state (length q.rx) q.rx q.recent (omega arith) in
    rw same (refl, firsts-Distinct q.rx q.recent, λ p. firsts-paths p q.rx q.recent)
