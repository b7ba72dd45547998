-- ===== src/Manager/Servers/Rounds.antt =====
-- nm/nm_state.c: the loop of nm_pick_server and nm_pick_backup_server finds the first server in the
-- order that starts at the counter and goes round.
use co_write_file_system.Prelude.{
  ℕ, zero, suc, ◌+◌, ◌-◌, ◌%◌, ◌≤◌, ◌<◌, ◌≡◌, refl, inl, inr, sym, ap, subst, ◌∙◌, Bool, true,
  false, Option, none, some, leb, ltb, if◌then◌else◌, arith, Bool-cases, mod-below, mod-less,
  mod-lt,
}
use co_write_file_system.Manager.Servers.{scan}

-- What the loop has found from `offset` on.
abbrev Scanned : ℕ → (ℕ → Bool) → ℕ → ℕ → ℕ → Option ℕ → Type 0
Scanned left ok start count offset none =
    (p : ℕ) → offset ≤ p → p < offset + left → ok ((start + p) % count) ≡ false
Scanned left ok start count offset (some i) =
    (o : ℕ) × (o < offset + left)
    × (i ≡ (start + o) % count)
    × (ok i ≡ true)
    × ((p : ℕ) → offset ≤ p → p < o → ok ((start + p) % count) ≡ false)

Scanned-step :
    (left : ℕ) (ok : ℕ → Bool) (start count offset : ℕ) (r : Option ℕ)
    → ok ((start + offset) % count) ≡ false
    → Scanned left ok start count (suc offset) r
    → Scanned (suc left) ok start count offset r
Scanned-step left ok start count offset none e h = λ p a b. elim (Bool-cases (ltb offset p)) [
  | inl q ↦ h p (ground arith) (omega arith)
  | inr q ↦
      let same : offset ≡ p = ground arith in ap (λ x. ok ((start + x) % count)) (sym same) ∙ e
]
Scanned-step left ok start count offset (some i) e (o, a, b, c, h) = (
  o,
  omega arith,
  b,
  c,
  λ p l m. elim (Bool-cases (ltb offset p)) [
    | inl q ↦ h p (ground arith) m
    | inr q ↦
        let same : offset ≡ p = ground arith in ap (λ x. ok ((start + x) % count)) (sym same) ∙ e
  ],
)

scan-Scanned :
    (left : ℕ) (ok : ℕ → Bool) (start count offset : ℕ)
    → Scanned left ok start count offset (scan left ok start count offset)
unfolding scan
scan-Scanned zero ok start count offset = λ p a b. absurd (omega arith)
scan-Scanned (suc left) ok start count offset = elim (Bool-cases (ok ((start + offset) % count))) [
  | inl e ↦ rw (e, scan) (offset, omega arith, refl, e, λ p a b. absurd (omega arith))
  | inr e ↦
      rw (e, scan)
        (Scanned-step left ok start count offset _ e
          (scan-Scanned left ok start count (suc offset)))
]

-- How many steps round the servers lead from one index to another.
abbrev pub distance : ℕ → ℕ → ℕ → ℕ
distance count start i = if leb start i then i - start else i + count - start

pub mod-distance :
    (count start i : ℕ) → start < count → i < count → (start + distance count start i) % count ≡ i
mod-distance count start i h k = elim (Bool-cases (leb start i)) [
  | inl e ↦ rw e (mod-below (start + (i - start)) count (ground arith) ∙ ground arith)
  | inr e ↦
      rw e
        (mod-less (start + (i + count - start)) count (ground arith) (ground arith) ∙ ground arith)
]

pub distance-mod :
    (count start o : ℕ) → start < count → o < count → distance count start ((start + o) % count) ≡ o
distance-mod count start o h k = elim (Bool-cases (ltb (start + o) count)) [
  | inl e ↦ rw (mod-below (start + o) count (ground arith)) (ground arith)
  | inr e ↦ rw (mod-less (start + o) count (ground arith) (omega arith)) (ground arith)
]

-- The first index from `start` on, round the `count` indices, that passes the test.
abbrev pub IsFirst : ℕ → (ℕ → Bool) → ℕ → Option ℕ → Type 0
IsFirst count ok start none = (i : ℕ) → i < count → ok i ≡ false
IsFirst count ok start (some i) =
    (i < count)
    × (ok i ≡ true)
    × ((j : ℕ) → j < count → ok j ≡ true → distance count start i ≤ distance count start j)

Scanned-IsFirst :
    (ok : ℕ → Bool) (start count : ℕ) (r : Option ℕ)
    → start < count
    → Scanned count ok start count 0 r
    → IsFirst count ok start r
Scanned-IsFirst ok start count none h f =
    λ i k. ap ok (sym (mod-distance count start i h k)) ∙ f _ (omega arith) (ground arith)
Scanned-IsFirst ok start count (some i) h (o, a, b, c, f) =
    let at : distance count start i ≡ o =
      ap (distance count start) b ∙ distance-mod count start o h (omega arith) in
    (
      subst (λ x. x < count) (sym b) (mod-lt (start + o) count (omega arith)),
      c,
      λ j k e. elim (Bool-cases (ltb (distance count start j) o)) [
        | inl q ↦
            let no : ok j ≡ false =
              ap ok (sym (mod-distance count start j h k)) ∙ f _ (omega arith) (ground arith) in
            absurd (cc (e, no))
        | inr q ↦ subst (λ x. x ≤ distance count start j) (sym at) (ground arith)
      ],
    )

pub scan-IsFirst :
    (ok : ℕ → Bool) (start count : ℕ)
    → start < count
    → IsFirst count ok start (scan count ok start count 0)
scan-IsFirst ok start count h =
    Scanned-IsFirst ok start count _ h (scan-Scanned count ok start count 0)
