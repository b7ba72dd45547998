-- ===== src/Common/Net/Round.antt =====
-- common/net_proto.c: a message that is sent is the message that is received, however the calls of
-- send and recv cut it.
use co_write_file_system.Prelude.{
  ℕ, zero, suc, ◌+◌, ◌-◌, ◌%◌, ◌^◌, leb, Option, some, none, Bool, true, take_all, append_assoc,
  mod-below, ◌<◌, ◌≡◌, refl, ap, ◌∙◌, List, [], ◌∷◌, ◌++◌, arith, Bytes, length, take, drop,
  take-append-drop, length-append,
}
use co_write_file_system.Common.Net.{
  Step, interrupted, broken, closed, moved, finished, Moved, ahead, send_all, recv_all, header,
  value, net_send_json, message, buffer_size, net_recv_json,
}

-- The calls that are left when the first of them have moved `n` bytes; none if they fail, or end,
-- before that.
unfoldable pub left_after : List Step → ℕ → Option (List Step)
left_after steps zero = some steps
left_after [] (suc n) = none
left_after (interrupted ∷ steps) (suc n) = left_after steps (suc n)
left_after (broken ∷ steps) (suc n) = none
left_after (closed ∷ steps) (suc n) = none
left_after (moved k ∷ steps) (suc n) = left_after steps (n - k)

abbrev done : Bytes → List Step → Moved
done bytes steps = record { bytes = bytes; result = finished steps }

length-drop : (n : ℕ) (s : Bytes) → length (drop n s) ≡ length s - n
length-drop zero s = omega arith
length-drop (suc n) [] = omega arith
length-drop (suc n) (b ∷ s) = length-drop n s ∙ omega arith

send_all-done :
    (steps : List Step) (bytes : Bytes) (left : List Step)
    → left_after steps (length bytes) ≡ some left
    → send_all steps bytes ≡ done bytes left
unfolding send_all left_after
send_all-done steps [] left h = let same : steps ≡ left = cc h in ap (done []) same
send_all-done [] (b ∷ bytes) left h = absurd (cc h)
send_all-done (interrupted ∷ steps) (b ∷ bytes) left h = send_all-done steps (b ∷ bytes) left h
send_all-done (broken ∷ steps) (b ∷ bytes) left h = absurd (cc h)
send_all-done (closed ∷ steps) (b ∷ bytes) left h = absurd (cc h)
send_all-done (moved n ∷ steps) (b ∷ bytes) left h =
    let e =
      send_all-done steps (drop n bytes) left (ap (left_after steps) (length-drop n bytes) ∙ h) in
    ap (ahead (b ∷ take n bytes)) e ∙ ap (λ s. done (b ∷ s) left) (take-append-drop n bytes)

pub take-append_all : (s more : Bytes) → take (length s) (s ++ more) ≡ s
take-append_all [] more = refl
take-append_all (b ∷ s) more = ap (◌∷◌ b) (take-append_all s more)

pub drop-append_all : (s more : Bytes) → drop (length s) (s ++ more) ≡ more
drop-append_all [] more = refl
drop-append_all (b ∷ s) more = drop-append_all s more

drop-take : (n : ℕ) (s more : Bytes) → drop (length (take n s)) (s ++ more) ≡ drop n s ++ more
drop-take zero s more = refl
drop-take (suc n) [] more = refl
drop-take (suc n) (b ∷ s) more = drop-take n s more

length-take-drop : (n : ℕ) (s : Bytes) → length s - length (take n s) ≡ length (drop n s)
length-take-drop n s =
    let whole = ap (λ x. length x) (take-append-drop n s) in
    omega (arith, whole, length-append (take n s) (drop n s))

pub recv_all-done :
    (steps : List Step) (text more : Bytes) (left : List Step)
    → left_after steps (length text) ≡ some left
    → recv_all steps (length text) (text ++ more) ≡ done text left
unfolding recv_all left_after
recv_all-done steps [] more left h = let same : steps ≡ left = cc h in ap (done []) same
recv_all-done [] (b ∷ text) more left h = absurd (cc h)
recv_all-done (interrupted ∷ steps) (b ∷ text) more left h =
    recv_all-done steps (b ∷ text) more left h
recv_all-done (broken ∷ steps) (b ∷ text) more left h = absurd (cc h)
recv_all-done (closed ∷ steps) (b ∷ text) more left h = absurd (cc h)
recv_all-done (moved n ∷ steps) (b ∷ text) more left h =
    let e =
      recv_all-done steps (drop n text) more left
        (ap (left_after steps) (length-drop n text) ∙ h) in
    rw (take-append_all text more, drop-take n text more, length-take-drop n text)
      (ap (ahead (b ∷ take n text)) e ∙ ap (λ s. done (b ∷ s) left) (take-append-drop n text))

-- The four bytes of the length give it back.
value-header : (len : ℕ) → len < 2 ^ 32 → value (header len) ≡ len
value-header len h = omega arith

length-header : (len : ℕ) → length (header len) ≡ 4
length-header len = refl

module _ (s : Bytes) (short : length s < 2 ^ 32 - 1) where
  size : length s % 2 ^ 32 ≡ length s
  size = mod-below (length s) (2 ^ 32) (omega arith)

  -- A text whose length fits in 32 bits goes out as its length and itself.
  pub net_send_json-sends :
      (steps start end : List Step)
      → left_after steps 4 ≡ some start
      → left_after start (length s) ≡ some end
      → (net_send_json steps s).bytes ≡ header (length s) ++ s
  unfolding net_send_json
  net_send_json-sends steps start end h h' =
      let e = send_all-done steps (header (length s)) start h in
      let e' = send_all-done start s end h' in
      let whole = take_all (length s) s (omega arith) in rw (size, e, whole, e') refl

  module _ (alloc : ℕ → Bool) (memory : alloc (buffer_size (length s)) ≡ true) where
    net_recv_json-receives :
        (steps start end : List Step) (more : Bytes)
        → left_after steps 4 ≡ some start
        → left_after start (length s) ≡ some end
        → net_recv_json alloc steps ((header (length s) ++ s) ++ more) ≡ message s more end
    unfolding net_recv_json
    net_recv_json-receives steps start end more h h' =
        let e = recv_all-done steps (header (length s)) (s ++ more) start h in
        let e' = recv_all-done start s more end h' in
        let back = value-header (length s) (omega arith) in
        let fits : leb (length s + 1) (buffer_size (length s)) ≡ true =
          ground (arith, mod-below (length s + 1) (2 ^ 32) (omega arith)) in
        rw
          (
            append_assoc (header (length s)) s more,
            e,
            back,
            e',
            memory,
            fits,
            drop-append_all s more,
          )
          refl

    -- A message that is sent is received: for a text whose length and one more fit in 32 bits, when
    -- the calls of each side move four bytes and then the length of the text, however they cut
    -- them and however often they are interrupted, and there is memory for it, the receiver gets
    -- the text, and the stream and its calls are left at what comes after it.
    pub net_recv_json-net_send_json :
        (sends sent_head sent_text receives got_head got_text : List Step) (more : Bytes)
        → left_after sends 4 ≡ some sent_head
        → left_after sent_head (length s) ≡ some sent_text
        → left_after receives 4 ≡ some got_head
        → left_after got_head (length s) ≡ some got_text
        → net_recv_json alloc receives ((net_send_json sends s).bytes ++ more)
          ≡ message s more got_text
    net_recv_json-net_send_json sends a b receives c d more ha hb hc hd =
        rw (net_send_json-sends sends a b ha hb) (net_recv_json-receives receives c d more hc hd)
