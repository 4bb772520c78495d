-- ===== src/Ipc/Frame/Laws.antt =====
-- Reading what was sent, and what is refused.
use velo_rift.Ipc.Frame.{
  IoError, out_of_fuel, Result, ok, err, ◌>>=◌, Codec, read_exact, check_header, read_header,
  same_frame, is_heartbeat, send_heartbeat, send_frame, decode, read_payload, read_loop,
  read_message,
}
use velo_rift.Ipc.Header.{
  FrameType, request, response, heartbeat, IpcHeader, new, frame_type, is_valid, to_bytes,
  from_bytes, header_size, max_length,
}
use velo_rift.Ipc.Header.Laws.{Fits, from_bytes-to_bytes, new-is_valid, length-to_bytes}
use mathlib.Core.List.{append_assoc, append-nil}
use velo_rift.Prelude.{
  ◌⊎◌, ℕ, zero, suc, ◌+◌, ◌-◌, ◌%◌, ◌^◌, ◌≤◌, ◌<◌, ◌≡◌, ◌≢◌, refl, sym, ap, ◌∙◌, subst, List, [],
  ◌∷◌, ◌++◌, some, true, false, ltb, length, take, drop, arith, Bool-cases, length-append,
  length-drop, Option-cases, inl, inr,
}

take-append {ℓ} : {A : Type ℓ} (xs ys : List A) → take (length xs) (xs ++ ys) ≡ xs
take-append [] ys = refl
take-append (x ∷ xs) ys = ap (λ t. x ∷ t) (take-append xs ys)

drop-append {ℓ} : {A : Type ℓ} (xs ys : List A) → drop (length xs) (xs ++ ys) ≡ ys
drop-append [] ys = refl
drop-append (x ∷ xs) ys = drop-append xs ys

read_exact-append : (xs ys : List ℕ) (n : ℕ) → length xs ≡ n → read_exact n (xs ++ ys) ≡ ok (xs, ys)
unfolding read_exact
read_exact-append xs ys n e =
    let l = length-append xs ys in
    let enough : ltb (length (xs ++ ys)) n ≡ false = ground arith in
    let t = subst (λ m. take m (xs ++ ys) ≡ xs) e (take-append xs ys) in
    let d = subst (λ m. drop m (xs ++ ys) ≡ ys) e (drop-append xs ys) in rw (enough, t, d) refl

-- A valid header is read back, and the bytes after it are left.
read_header-to_bytes :
    (h : IpcHeader) (rest : List ℕ)
    → Fits h
    → is_valid h ≡ true
    → read_header (to_bytes h ++ rest) ≡ ok (h, rest)
unfolding read_header check_header
read_header-to_bytes h rest fits valid =
    let r = read_exact-append (to_bytes h) rest header_size (length-to_bytes h) in
    let b : from_bytes (to_bytes h) ≡ h =
      ap from_bytes (sym (append-nil (to_bytes h))) ∙ from_bytes-to_bytes h [] fits in
    rw (r, ◌>>=◌, b, valid) refl

heartbeat_new : (seq : ℕ) → is_heartbeat (new heartbeat 0 seq) ≡ true
unfolding is_heartbeat
heartbeat_new seq = rw ((new-is_valid heartbeat 0 seq).1) refl

-- a run of heartbeats with the given sequence numbers
unfoldable pub heartbeats : List ℕ → List ℕ
heartbeats [] = []
heartbeats (s ∷ ss) = send_heartbeat s ++ heartbeats ss

abbrev pub AllFit : List ℕ → Type 0
AllFit [] = Unit {0}
AllFit (s ∷ ss) = (s < 2 ^ 32) × AllFit ss

length-heartbeats : (ss : List ℕ) → length ss ≤ length (heartbeats ss)
unfolding heartbeats send_heartbeat
length-heartbeats [] = omega arith
length-heartbeats (s ∷ ss) = omega (
  arith,
  length-heartbeats ss,
  length-append (to_bytes (new heartbeat 0 s)) (heartbeats ss),
  length-to_bytes (new heartbeat 0 s),
)

Result-cases : {A : Type 0} (r : Result A) → ((x : IoError) × (r ≡ err x)) ⊎ ((a : A) × (r ≡ ok a))
Result-cases (ok a) = inr (a, refl)
Result-cases (err x) = inl (x, refl)

module _ {Msg : Type 0} (codec : Codec Msg) where
  skip :
      (fuel : ℕ) (want : FrameType) (input : List ℕ) (h : IpcHeader) (rest : List ℕ)
      → read_header input ≡ ok (h, rest)
      → is_heartbeat h ≡ true
      → read_loop codec (suc fuel) want input ≡ read_loop codec fuel want rest
  skip fuel want input h rest e b = unfold read_loop in rw (e, read_loop, b) refl

  rejected :
      (fuel : ℕ) (want : FrameType) (input : List ℕ) (x : IoError)
      → read_header input ≡ err x
      → read_loop codec (suc fuel) want input ≡ err x
  unfolding read_loop
  rejected fuel want input x e = rw (e, read_loop) refl

  read_loop-heartbeats :
      (ss : List ℕ) (fuel : ℕ) (want : FrameType) (input : List ℕ)
      → AllFit ss
      → read_loop codec (length ss + fuel) want (heartbeats ss ++ input)
        ≡ read_loop codec fuel want input
  unfolding heartbeats send_heartbeat
  read_loop-heartbeats [] fuel want input fit = ap (λ n. read_loop codec n want input) (omega arith)
  read_loop-heartbeats (s ∷ ss) fuel want input fit =
      let b = to_bytes (new heartbeat 0 s) in
      let r =
        read_header-to_bytes (new heartbeat 0 s) (heartbeats ss ++ input)
          (unfold new in record { length = omega arith; seq_id = fit.0 })
          (new-is_valid heartbeat 0 s).0 in
      let n : suc (length ss) + fuel ≡ suc (length ss + fuel) = omega arith in
      ap (λ n. read_loop codec n want ((b ++ heartbeats ss) ++ input)) n
      ∙ ap (read_loop codec (suc (length ss + fuel)) want) (append_assoc b (heartbeats ss) input)
      ∙ skip (length ss + fuel) want _ (new heartbeat 0 s) (heartbeats ss ++ input) r
          (heartbeat_new s)
      ∙ read_loop-heartbeats ss fuel want input fit.1

  read_payload-ok :
      (want : FrameType) (h : IpcHeader) (payload rest : List ℕ) (m : Msg)
      → same_frame (frame_type h) want ≡ true
      → length payload ≡ h.length
      → codec.deserialize payload ≡ some m
      → read_payload codec want h (payload ++ rest) ≡ ok (h, m, rest)
  unfolding read_payload
  read_payload-ok want h payload rest m s e d =
      let r = read_exact-append payload rest h.length e in
      let dm : decode codec payload ≡ ok m = unfold decode in rw (d, decode) refl in
      rw (s, r, ◌>>=◌, dm) refl

  same_frame_refl : (t : FrameType) → same_frame (some t) t ≡ true
  same_frame_refl request = refl
  same_frame_refl response = refl
  same_frame_refl heartbeat = refl

  stop :
      (fuel : ℕ) (want : FrameType) (input : List ℕ) (h : IpcHeader) (rest : List ℕ)
      → read_header input ≡ ok (h, rest)
      → is_heartbeat h ≡ false
      → read_loop codec (suc fuel) want input ≡ read_payload codec want h rest
  unfolding read_loop
  stop fuel want input h rest e b = rw (e, read_loop, b) refl

  not_heartbeat : (t : FrameType) (n seq : ℕ) → t ≢ heartbeat → is_heartbeat (new t n seq) ≡ false
  unfolding is_heartbeat
  not_heartbeat t n seq ne = rw (new-is_valid t n seq).1 (apart t ne)
    where
      apart : (t : FrameType) → t ≢ heartbeat → same_frame (some t) heartbeat ≡ false
      apart request ne = refl
      apart response ne = refl
      apart heartbeat ne = absurd (ne refl)

  -- With an encoding that its decoding inverts, a request or response that was sent with a 32-bit
  -- sequence number is read back as its message, with that number, past any number of heartbeats,
  -- and what follows it is left in the stream.
  pub read_message-send_frame :
      (want : FrameType) (m : Msg) (seq : ℕ) (ss bytes rest : List ℕ)
      → ((m' : Msg) (p : List ℕ) → codec.serialize m' ≡ some p → codec.deserialize p ≡ some m')
      → want ≢ heartbeat
      → seq < 2 ^ 32
      → AllFit ss
      → send_frame codec want m seq ≡ ok bytes
      → (h : IpcHeader) × (read_message codec want (heartbeats ss ++ (bytes ++ rest))
          ≡ ok (h, m, rest))
        × (h.seq_id ≡ seq)
        × (frame_type h ≡ some want)
  unfolding send_frame read_message
  read_message-send_frame want m seq ss bytes rest inverse ne fits fit sent =
      elim (Option-cases (codec.serialize m)) [
        | inl none_e ↦ let s = sent in absurd (ground arith)
        | inr (payload, e) ↦
            let small : length payload ≤ max_length = ground arith in
            let n = length payload % 2 ^ 32 in
            let h = new want n seq in
            let b : bytes ≡ to_bytes h ++ payload = ground arith in
            let whole : bytes ++ rest ≡ to_bytes h ++ (payload ++ rest) =
              ap (λ l. l ++ rest) b ∙ append_assoc (to_bytes h) payload rest in
            let input = heartbeats ss ++ (bytes ++ rest) in
            let fuel : suc (length input) ≡ length ss + suc (length input - length ss) =
              omega (arith, length-heartbeats ss, length-append (heartbeats ss) (bytes ++ rest)) in
            let r =
              read_header-to_bytes h (payload ++ rest)
                (unfold new in record { length = omega arith; seq_id = fits })
                (new-is_valid want n seq).0 in
            (
              h,
              ap (λ k. read_loop codec k want input) fuel
                  ∙ read_loop-heartbeats ss (suc (length input - length ss)) want (bytes ++ rest)
                      fit
                  ∙ ap (read_loop codec (suc (length input - length ss)) want) whole
                  ∙ stop (length input - length ss) want _ h (payload ++ rest) r
                      (not_heartbeat want n seq ne)
                  ∙ read_payload-ok want h payload rest m
                      (rw (new-is_valid want n seq).1 (same_frame_refl want))
                      (unfold new in omega arith) (inverse m payload e),
              unfold new in refl,
              (new-is_valid want n seq).1,
            )
      ]

  read_payload_fuel :
      (want : FrameType) (h : IpcHeader) (input : List ℕ)
      → read_payload codec want h input ≢ err out_of_fuel
  unfolding read_payload decode read_exact
  read_payload_fuel want h input e = ground arith

  shorter :
      (input : List ℕ) (h : IpcHeader) (rest : List ℕ)
      → read_header input ≡ ok (h, rest)
      → length rest + header_size ≡ length input
  unfolding read_header read_exact check_header
  shorter input h rest e = ground (arith, length-drop header_size input)

  read_header_fuel : (input : List ℕ) (x : IoError) → read_header input ≡ err x → x ≢ out_of_fuel
  unfolding read_header read_exact check_header
  read_header_fuel input x e f = ground arith

  read_loop_fuel :
      (fuel : ℕ) (want : FrameType) (input : List ℕ)
      → length input < fuel
      → read_loop codec fuel want input ≢ err out_of_fuel
  read_loop_fuel zero want input lt e = absurd (omega arith)
  read_loop_fuel (suc fuel) want input lt e = elim (Result-cases (read_header input)) [
    | inl (x, r) ↦
        let fuel_e = sym (rejected fuel want input x r) ∙ e in read_header_fuel input x r (cc)
    | inr (hr, r) ↦ elim (Bool-cases (is_heartbeat hr.0)) [
      | inl t ↦
          read_loop_fuel fuel want hr.1 (omega (arith, shorter input hr.0 hr.1 r, lt))
            (sym (skip fuel want input hr.0 hr.1 r t) ∙ e)
      | inr f ↦ read_payload_fuel want hr.0 hr.1 (sym (stop fuel want input hr.0 hr.1 r f) ∙ e)
    ]
  ]

  -- Reading ends for every stream: the loop's rounds, one more than the stream has bytes, are
  -- never used up.
  pub read_message_fuel :
      (want : FrameType) (input : List ℕ) → read_message codec want input ≢ err out_of_fuel
  unfolding read_message
  read_message_fuel want input = read_loop_fuel (suc (length input)) want input (omega arith)
