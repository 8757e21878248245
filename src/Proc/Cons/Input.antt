-- ===== src/Proc/Cons/Input.antt =====
-- The keys of a process are a bounded queue.
use zeros_i.Base.{
  ℕ, zero, suc, ◌+◌, ◌-◌, ◌≤◌, ◌<◌, ◌≡◌, refl, sym, ap, ◌∙◌, true, Option, none, some, List, [],
  ◌∷◌, ◌++◌, ltb, leb, ◌==◌, if◌then◌else◌, get_or, length, length-append, length-drop, take, drop,
  min, take-nil, arith, Bool-cases, inl, inr,
}
use mathlib.Core.List.{append-nil, append_assoc}
use zeros_i.Proc.{Proc}
use zeros_i.Proc.Cons.{cons_in_max, cons_in_compact, queue_from, put_key, proc_cons_getc}

-- The keys that have not been read.
abbrev pub pending : Proc → List ℕ
pending t = drop t.cons_in_pos t.cons_in_keys

pub record IsQueue (t : Proc) : Type 0 where
  pub fits : length t.cons_in_keys < cons_in_max
  pub read : t.cons_in_pos ≤ length t.cons_in_keys

drop-zero : (xs : List ℕ) → drop 0 xs ≡ xs
drop-zero xs = refl

drop-get_or : (xs : List ℕ) (i : ℕ) → i < length xs → drop i xs ≡ get_or xs i 0 ∷ drop (i + 1) xs
drop-get_or [] i h = absurd (omega arith)
drop-get_or (x ∷ xs) zero h = refl
drop-get_or (x ∷ xs) (suc i) h =
    let e : suc i + 1 ≡ suc (i + 1) = omega arith in rw e (drop-get_or xs i (omega arith))

drop_all : (xs : List ℕ) (i : ℕ) → length xs ≤ i → drop i xs ≡ []
drop_all [] zero h = refl
drop_all [] (suc i) h = refl
drop_all (x ∷ xs) zero h = absurd (omega arith)
drop_all (x ∷ xs) (suc i) h = drop_all xs i (omega arith)

pub compact_lem :
    (t : Proc)
    → IsQueue t
    → (pending (cons_in_compact t) ≡ pending t)
      × IsQueue (cons_in_compact t)
      × ((cons_in_compact t).cons_in_pos ≡ 0)
unfolding cons_in_compact
compact_lem t h = elim (Bool-cases (t.cons_in_pos == 0)) [
  | inl start ↦ rw start (refl, h, ground arith)
  | inr moved ↦ rw moved (
    refl,
    record {
      fits = omega (arith, length-drop t.cons_in_pos t.cons_in_keys, h.fits);
      read = omega arith;
    },
    refl,
  )
]

pending_start : (t : Proc) → t.cons_in_pos ≡ 0 → pending t ≡ t.cons_in_keys
pending_start t e = ap (λ n. drop n t.cons_in_keys) e

-- In a queue within its bounds, a key goes to the end of the keys not yet read, if fewer than 127
-- of them wait, and is refused otherwise, with those keys kept. The queue stays within its bounds.
pub put_key_lem :
    (key : ℕ) (t : Proc)
    → IsQueue t
    → let (done, t') = put_key key t in
      IsQueue t'
      × (done ≡ ltb (length (pending t) + 1) cons_in_max)
      × (pending t' ≡ (if done then pending t ++ (key ∷ []) else pending t))
unfolding put_key
put_key_lem key t h =
    let (same, h', at) = compact_lem t h in
    let t' = cons_in_compact t in
    let whole = pending_start t' at in
    let longer = pending_start (record t' { cons_in_keys = t'.cons_in_keys ++ (key ∷ []) }) at in
    elim (Bool-cases (leb cons_in_max (length t'.cons_in_keys + 1))) [
      | inl full ↦ rw full (h', ground (arith, same, whole), same)
      | inr room ↦ rw room (
        record {
          fits = ground (arith, length-append t'.cons_in_keys (key ∷ []));
          read = omega (arith, at);
        },
        ground (arith, same, whole),
        longer ∙ ap (λ ks. ks ++ (key ∷ [])) (sym whole ∙ same),
      )
    ]

-- The outcome of reading a key: none waited, or the first one left.
abbrev pub GetcSpec : Proc → Option ℕ × Proc → Type 0
GetcSpec p (none, p') = (pending p ≡ []) × (p' ≡ p)
GetcSpec p (some k, p') = (pending p ≡ k ∷ pending p') × IsQueue p'

-- A process with a console and a queue within its bounds reads the oldest key that waits, and the
-- others keep waiting in order; it gets null, and changes nothing, only if no key waits.
pub proc_cons_getc_lem :
    (p : Proc) → IsQueue p → p.cons_enable ≡ true → GetcSpec p (proc_cons_getc p)
unfolding proc_cons_getc
proc_cons_getc_lem p h on = elim (Bool-cases (leb (length p.cons_in_keys) p.cons_in_pos)) [
  | inl empty ↦ rw (on, empty) (drop_all p.cons_in_keys p.cons_in_pos (ground arith), refl)
  | inr waits ↦
      let front = drop-get_or p.cons_in_keys p.cons_in_pos (ground arith) in
      elim (Bool-cases (leb (length p.cons_in_keys) (p.cons_in_pos + 1))) [
        | inl last ↦
            rw (on, waits, last)
              (
                front
                    ∙ ap (λ ks. get_or p.cons_in_keys p.cons_in_pos 0 ∷ ks)
                        (drop_all p.cons_in_keys (p.cons_in_pos + 1) (ground arith)),
                record { fits = omega arith; read = omega arith },
              )
        | inr more ↦ rw (on, waits, more) (front, record { fits = h.fits; read = ground arith })
      ]
]

-- In a queue within its bounds that has been moved to the start of its array, queueing bytes takes
-- as many as fit below 127 keys in all, in order, behind those that wait.
pub queue_from_lem :
    (buf : List ℕ) (i : ℕ) (t : Proc)
    → IsQueue t
    → t.cons_in_pos ≡ 0
    → let (n, t') = queue_from buf i t in
      IsQueue t'
      × (n ≡ i + min (length buf) (cons_in_max - 1 - length t.cons_in_keys))
      × (pending t' ≡ pending t ++ take (cons_in_max - 1 - length t.cons_in_keys) buf)
unfolding queue_from
queue_from_lem [] i t h at = (h, omega arith, rw (take-nil, append-nil))
queue_from_lem (b ∷ buf) i t h at =
    let room = cons_in_max - 1 - length t.cons_in_keys in
    let t1 = record t { cons_in_keys = t.cons_in_keys ++ (b ∷ []) } in
    let len : length (t.cons_in_keys ++ (b ∷ [])) ≡ length t.cons_in_keys + 1 =
      length-append t.cons_in_keys (b ∷ []) in
    elim (Bool-cases (leb cons_in_max (length t.cons_in_keys + 1))) [
      | inl full ↦
          let none_left : cons_in_max - 1 - length t.cons_in_keys ≡ zero = ground arith in
          rw (full, none_left) (h, omega arith, rw append-nil)
      | inr fits ↦
          let h1 : IsQueue t1 = record { fits = ground arith; read = omega (arith, at) } in
          let (h', count, keys) = queue_from_lem buf (i + 1) t1 h1 at in
          let one_less : cons_in_max - 1 - length t.cons_in_keys
              ≡ suc (cons_in_max - 1 - length (t.cons_in_keys ++ (b ∷ []))) =
            ground arith in
          rw fits (
            h',
            omega (arith, count, one_less, len),
            keys
                ∙ rw one_less (
                    step t b at (take (cons_in_max - 1 - length (t.cons_in_keys ++ (b ∷ []))) buf)),
          )
    ]
  where
    step :
        (t : Proc) (b : ℕ)
        → t.cons_in_pos ≡ 0
        → (ks : List ℕ)
        → drop t.cons_in_pos (t.cons_in_keys ++ (b ∷ [])) ++ ks
          ≡ drop t.cons_in_pos t.cons_in_keys ++ (b ∷ ks)
    step t b at ks = rw at (append_assoc t.cons_in_keys (b ∷ []) ks)
