-- ===== src/Common/Net/Overrun.antt =====
-- common/net_proto.c: when net_recv_json writes behind its buffer.
use co_write_file_system.Prelude.{
  ℕ, zero, suc, ◌+◌, ◌-◌, ◌^◌, ◌≤◌, ◌<◌, ◌≡◌, ◌≢◌, ◌↔◌, if◌then◌else◌, subst, append_assoc,
  length-append, refl, inl, inr, ap, sym, ◌∙◌, leb, some, Bool, true, false, Bool-cases, List, [],
  ◌∷◌, ◌++◌, arith, Bytes, All, length, take, drop,
}
use co_write_file_system.Common.Net.{
  Step, interrupted, broken, closed, moved, End, finished, failed, waiting, Moved, recv_all, value,
  recv_failed, overrun, terminator, written_size, received_text, buffered, buffer_size,
  received_header, net_recv_json,
}
use co_write_file_system.Common.Net.Round.{left_after, recv_all-done, take-append_all}

length-take_le : (n : ℕ) (s : Bytes) → length (take n s) ≤ n
length-take_le zero s = omega arith
length-take_le (suc n) [] = omega arith
length-take_le (suc n) (b ∷ s) = omega (arith, length-take_le n s)

-- A part of a part of the stream, and the rest of the stream.
part-append-drop :
    (k n : ℕ) (s : Bytes) → take k (take n s) ++ drop (length (take k (take n s))) s ≡ s
part-append-drop zero n s = refl
part-append-drop (suc k) zero s = refl
part-append-drop (suc k) (suc n) [] = refl
part-append-drop (suc k) (suc n) (b ∷ s) = ap (◌∷◌ b) (part-append-drop k n s)

part_le : (k n : ℕ) (s : Bytes) → length (take k (take n s)) ≤ n
part_le zero n s = omega arith
part_le (suc k) zero s = omega arith
part_le (suc k) (suc n) [] = omega arith
part_le (suc k) (suc n) (b ∷ s) = omega (arith, part_le k n s)

-- No more bytes come than were asked for.
recv_all_le :
    (steps : List Step) (n : ℕ) (stream : Bytes) → length (recv_all steps n stream).bytes ≤ n
unfolding recv_all
recv_all_le steps zero stream = omega arith
recv_all_le [] (suc n) stream = omega arith
recv_all_le (interrupted ∷ steps) (suc n) stream = recv_all_le steps (suc n) stream
recv_all_le (broken ∷ steps) (suc n) stream = omega arith
recv_all_le (closed ∷ steps) (suc n) stream = omega arith
recv_all_le (moved k ∷ steps) (suc n) [] = omega arith
recv_all_le (moved k ∷ steps) (suc n) (b ∷ stream) =
    let part = take k (take n stream) in
    let rest = recv_all steps (n - length part) (drop (length part) stream) in
    omega (
      arith,
      length-append part rest.bytes,
      part_le k n stream,
      recv_all_le steps (n - length part) (drop (length part) stream),
    )

-- When all of them came, they are the first ones of the stream.
recv_all-finished :
    (steps : List Step) (n : ℕ) (stream : Bytes) (left : List Step)
    → (recv_all steps n stream).result ≡ finished left
    → (more : Bytes) × ((recv_all steps n stream).bytes ++ more ≡ stream)
      × (length (recv_all steps n stream).bytes ≡ n)
unfolding recv_all
recv_all-finished steps zero stream left h = (stream, refl, refl)
recv_all-finished [] (suc n) stream left h = absurd (cc h)
recv_all-finished (interrupted ∷ steps) (suc n) stream left h =
    recv_all-finished steps (suc n) stream left h
recv_all-finished (broken ∷ steps) (suc n) stream left h = absurd (cc h)
recv_all-finished (closed ∷ steps) (suc n) stream left h = absurd (cc h)
recv_all-finished (moved k ∷ steps) (suc n) [] left h = absurd (cc h)
recv_all-finished (moved k ∷ steps) (suc n) (b ∷ stream) left h =
    let part = take k (take n stream) in
    let rest = recv_all steps (n - length part) (drop (length part) stream) in
    let (more, e, full) =
      recv_all-finished steps (n - length part) (drop (length part) stream) left h in
    (
      more,
      ap (◌∷◌ b)
          (append_assoc part rest.bytes more ∙ ap (λ s. part ++ s) e ∙ part-append-drop k n stream),
      omega (arith, length-append part rest.bytes, part_le k n stream, full),
    )

part-length : (k n : ℕ) (s : Bytes) → n ≤ length s → n - length (take k (take n s)) ≡ n - k
part-length zero n s h = refl
part-length (suc k) zero s h = omega arith
part-length (suc k) (suc n) [] h = absurd (omega arith)
part-length (suc k) (suc n) (b ∷ s) h = omega (arith, part-length k n s (omega arith))

part_within : (k n : ℕ) (s : Bytes) → length (take k (take n s)) ≤ length s
part_within zero n s = omega arith
part_within (suc k) zero s = omega arith
part_within (suc k) (suc n) [] = omega arith
part_within (suc k) (suc n) (b ∷ s) = omega (arith, part_within k n s)

length-drop : (n : ℕ) (s : Bytes) → length (drop n s) ≡ length s - n
length-drop zero s = omega arith
length-drop (suc n) [] = omega arith
length-drop (suc n) (b ∷ s) = length-drop n s ∙ omega arith

-- Then the calls moved so many, and the rest of them is left.
recv_all-left :
    (steps : List Step) (n : ℕ) (stream : Bytes) (left : List Step)
    → (recv_all steps n stream).result ≡ finished left
    → left_after steps n ≡ some left
unfolding recv_all left_after
recv_all-left steps zero stream left h = let same : steps ≡ left = cc h in ap some same
recv_all-left [] (suc n) stream left h = absurd (cc h)
recv_all-left (interrupted ∷ steps) (suc n) stream left h =
    recv_all-left steps (suc n) stream left h
recv_all-left (broken ∷ steps) (suc n) stream left h = absurd (cc h)
recv_all-left (closed ∷ steps) (suc n) stream left h = absurd (cc h)
recv_all-left (moved k ∷ steps) (suc n) [] left h = absurd (cc h)
recv_all-left (moved k ∷ steps) (suc n) (b ∷ stream) left h =
    let part = take k (take n stream) in
    let rest = recv_all steps (n - length part) (drop (length part) stream) in
    let (more, e, full) =
      recv_all-finished steps (n - length part) (drop (length part) stream) left h in
    let long : n ≤ length stream = omega (
      arith,
      ap (λ x. length x) e,
      length-append rest.bytes more,
      length-drop (length part) stream,
      part_within k n stream,
      full,
    ) in
    ap (left_after steps) (sym (part-length k n stream long))
    ∙ recv_all-left steps (n - length part) (drop (length part) stream) left h

written_size_le : (m : Moved) → written_size m ≤ length m.bytes + 1
written_size_le m = by m.result
  where
    by : (e : End) → length m.bytes + terminator e ≤ length m.bytes + 1
    by (finished steps) = omega arith
    by failed = omega arith
    by waiting = omega arith

-- A length of four bytes of which the buffer has no place for so many bytes and the NUL.
wraps :
    (a b c d : ℕ) (used : ℕ)
    → a < 256
    → b < 256
    → c < 256
    → d < 256
    → used ≤ value (a ∷ b ∷ c ∷ d ∷ []) + 1
    → leb used (buffer_size (value (a ∷ b ∷ c ∷ d ∷ []))) ≡ false
    → value (a ∷ b ∷ c ∷ d ∷ []) ≡ 2 ^ 32 - 1
wraps a b c d used ha hb hc hd le h =
    let over : buffer_size (value (a ∷ b ∷ c ∷ d ∷ [])) < used = ground arith in omega arith

text-ne-overrun : (stream : Bytes) (m : Moved) (e : End) → received_text stream m e ≢ overrun
text-ne-overrun stream m (finished steps) h = cc h
text-ne-overrun stream m failed h = cc h
text-ne-overrun stream m waiting h = cc h

buffered-overrun :
    (size : ℕ) (stream : Bytes) (m : Moved)
    → buffered size stream m ≡ overrun
    → leb (written_size m) size ≡ false
buffered-overrun size stream m h = elim (Bool-cases (leb (written_size m) size)) [
  | inl e ↦ absurd (text-ne-overrun stream m m.result (sym (rw e refl) ∙ h))
  | inr e ↦ e
]

-- The first four bytes of the stream, of which `used` bytes do not fit into the buffer they ask for.
head-wraps :
    (bytes more stream : Bytes) (used : ℕ)
    → bytes ++ more ≡ stream
    → length bytes ≡ 4
    → All (λ b. b < 256) stream
    → used ≤ value bytes + 1
    → leb used (buffer_size (value bytes)) ≡ false
    → value (take 4 stream) ≡ 2 ^ 32 - 1
head-wraps (a ∷ b ∷ c ∷ d ∷ []) more stream used e four small le h =
    let (ha, (hb, (hc, (hd, _)))) : (a < 256)
        × ((b < 256) × ((c < 256) × ((d < 256) × All (λ x. x < 256) more))) =
      subst (All (λ b. b < 256)) (sym e) small in
    ap (λ s. value (take 4 s)) (sym e) ∙ wraps a b c d used ha hb hc hd le h
head-wraps [] more stream used e four small le h = absurd (omega arith)
head-wraps (a ∷ []) more stream used e four small le h = absurd (omega arith)
head-wraps (a ∷ b ∷ []) more stream used e four small le h = absurd (omega arith)
head-wraps (a ∷ b ∷ c ∷ []) more stream used e four small le h = absurd (omega arith)
head-wraps (a ∷ b ∷ c ∷ d ∷ x ∷ bytes) more stream used e four small le h = absurd (omega arith)

-- When something is written into the buffer of a text that is not empty, a byte of it came.
some-came :
    (steps : List Step) (n : ℕ) (stream : Bytes)
    → 0 < n
    → leb (written_size (recv_all steps n stream)) 0 ≡ false
    → 0 < length (recv_all steps n stream).bytes
some-came steps n stream h w = by (recv_all steps n stream).result refl w
  where
    by :
        (e : End)
        → (recv_all steps n stream).result ≡ e
        → leb (length (recv_all steps n stream).bytes + terminator e) 0 ≡ false
        → 0 < length (recv_all steps n stream).bytes
    by (finished left) at w =
        let (_, _, full) = recv_all-finished steps n stream left at in omega arith
    by failed at w = ground arith
    by waiting at w = ground arith

module _ (alloc : ℕ → Bool) (steps : List Step) where
  -- The calls bring the four bytes of the greatest length and a byte more, and malloc gives a pointer
  -- for a size of 0.
  abbrev pub BringsMore : Bytes → Type 0
  BringsMore stream =
      (value (take 4 stream) ≡ 2 ^ 32 - 1)
      × (alloc 0 ≡ true)
      × ((head : List Step) × (left_after steps 4 ≡ some head)
          × (0 < length (recv_all head (2 ^ 32 - 1) (drop 4 stream)).bytes))

  overrun-Brings :
      (stream : Bytes) (e : End)
      → All (λ b. b < 256) stream
      → (recv_all steps 4 stream).result ≡ e
      → received_header alloc stream (recv_all steps 4 stream) e ≡ overrun
      → BringsMore stream
  overrun-Brings stream failed small at h = absurd (cc h)
  overrun-Brings stream waiting small at h = absurd (cc h)
  overrun-Brings stream (finished left) small at h =
      let start = recv_all steps 4 stream in
      let len = value start.bytes in
      let rest = drop (length start.bytes) stream in
      let text = recv_all left len rest in
      let (more, whole, four) = recv_all-finished steps 4 stream left at in
      elim (Bool-cases (alloc (buffer_size len))) [
        | inl m ↦
            let over = buffered-overrun (buffer_size len) rest text (sym (rw m refl) ∙ h) in
            let most =
              head-wraps start.bytes more stream (written_size text) whole four small
                (omega (arith, written_size_le text, recv_all_le left len rest)) over in
            let first : take 4 stream ≡ start.bytes =
              ap (λ n. take n stream) (sym four)
              ∙ ap (take (length start.bytes)) (sym whole)
              ∙ take-append_all start.bytes more in
            let same : len ≡ 2 ^ 32 - 1 = sym (ap value first) ∙ most in
            (
              most,
              subst (λ n. alloc (buffer_size n) ≡ true) same m,
              (
                left,
                recv_all-left steps 4 stream left at,
                some-came left (2 ^ 32 - 1) (drop 4 stream) (omega arith) (
                    subst
                      (λ n.
                        leb (written_size (recv_all left (2 ^ 32 - 1) (drop n stream))) 0 ≡ false)
                      four
                      (subst
                        (λ n. leb (written_size (recv_all left n rest)) (buffer_size n) ≡ false)
                        same over)),
              ),
            )
        | inr m ↦ absurd (failed-ne-overrun (sym (rw m refl) ∙ h))
      ]
    where
      failed-ne-overrun : recv_failed ≢ overrun
      failed-ne-overrun e = cc e

  brings-overrun :
      (head : List Step) (rest : Bytes) (len : ℕ)
      → alloc 0 ≡ true
      → 0 < length (recv_all head (2 ^ 32 - 1) rest).bytes
      → 2 ^ 32 - 1 ≡ len
      → (if alloc (buffer_size len)
          then buffered (buffer_size len) rest (recv_all head len rest)
          else recv_failed)
        ≡ overrun
  brings-overrun head rest len m came same =
      subst
        (λ n.
          (if alloc (buffer_size n)
            then buffered (buffer_size n) rest (recv_all head n rest)
            else recv_failed)
          ≡ overrun)
        same
        (let over : leb (written_size (recv_all head (2 ^ 32 - 1) rest)) 0 ≡ false = ground arith in
          rw (m, over) refl)

  -- On a stream of bytes, net_recv_json writes behind its buffer just when the first four say that
  -- the text has 2 ^ 32 - 1 bytes, malloc gives a pointer for a size of 0, and the calls bring the
  -- four bytes and at least one of the text.
  pub net_recv_json-overrun :
      (stream : Bytes)
      → All (λ b. b < 256) stream
      → (net_recv_json alloc steps stream ≡ overrun) ↔ BringsMore stream
  unfolding net_recv_json
  net_recv_json-overrun stream small = (λ h. overrun-Brings stream _ small refl h, back stream)
    where
      back : (stream : Bytes) → BringsMore stream → net_recv_json alloc steps stream ≡ overrun
      back (a ∷ b ∷ c ∷ d ∷ rest) (most, m, (head, h, came)) =
          ap (λ x. received_header alloc (a ∷ b ∷ c ∷ d ∷ rest) x x.result)
            (recv_all-done steps (a ∷ b ∷ c ∷ d ∷ []) rest head h)
          ∙ brings-overrun head rest (value (a ∷ b ∷ c ∷ d ∷ [])) m came (sym most)
      back [] (most, _, _) = absurd (omega arith)
      back (a ∷ []) (most, _, _) = absurd (omega arith)
      back (a ∷ b ∷ []) (most, _, _) = absurd (omega arith)
      back (a ∷ b ∷ c ∷ []) (most, _, _) = absurd (omega arith)
