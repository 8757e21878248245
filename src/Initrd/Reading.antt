-- ===== src/Initrd/Reading.antt =====
-- What `initrd_unpack` reads at an entry that scripts/pack_initrd.py has packed.
use zeros_i.Base.{
  ℕ, zero, suc, ◌+◌, ◌-◌, ◌%◌, ◌<◌, ◌≡◌, refl, sym, ap, ◌∙◌, false, Option, none, some, List, [],
  ◌∷◌, ◌++◌, ltb, leb, ◌==◌, length, take, drop, arith,
}
use mathlib.Core.List.{append-nil}
use zeros_i.Memory.{word}
use zeros_i.Str.{IsCString, cstr}
use zeros_i.Vfs.{vfs_path_max}
use zeros_i.Proc.Elf.{word_at}
use zeros_i.Initrd.{Entry, no_file, bytes_at, entry_at, pack_word, file_word, content_bytes}

drop-nil : (n : ℕ) → drop {A = ℕ} n [] ≡ []
drop-nil zero = refl
drop-nil (suc n) = refl

pub drop-drop : (a b : ℕ) (xs : List ℕ) → drop (a + b) xs ≡ drop b (drop a xs)
drop-drop zero b xs = ap (λ n. drop n xs) (omega arith)
drop-drop (suc a) b [] = drop-nil (suc a + b) ∙ sym (drop-nil b)
drop-drop (suc a) b (x ∷ xs) =
    let e : suc a + b ≡ suc (a + b) = omega arith in rw e (drop-drop a b xs)

pub drop-append : (xs ys : List ℕ) → drop (length xs) (xs ++ ys) ≡ ys
drop-append [] ys = refl
drop-append (x ∷ xs) ys = drop-append xs ys

take-append : (xs ys : List ℕ) → take (length xs) (xs ++ ys) ≡ xs
take-append [] ys = refl
take-append (x ∷ xs) ys = ap (λ t. x ∷ t) (take-append xs ys)

pub length-append : (xs ys : List ℕ) → length (xs ++ ys) ≡ length xs + length ys
length-append [] ys = omega arith
length-append (x ∷ xs) ys = omega (arith, length-append xs ys)

cstr-IsCString : (s : List ℕ) → IsCString s → cstr s ≡ s
unfolding cstr
cstr-IsCString [] h = refl
cstr-IsCString (c ∷ s) h =
    let nz : c == 0 ≡ false = ground (arith, h.0) in rw nz (ap (λ t. c ∷ t) (cstr-IsCString s h.2))

pub word_at-pack_word : (n : ℕ) (rest : List ℕ) → n < word → word_at (pack_word n ++ rest) 0 ≡ n
word_at-pack_word n rest h = omega (arith, h)

-- A name that the archive can hold.
abbrev pub IsName : List ℕ → Type 0
IsName s = IsCString s × (0 < length s) × (length s < vfs_path_max)

-- The archive has an entry at `off`.
pub record At (blob : List ℕ) (off : ℕ) (e : Entry) (rest : List ℕ) : Type 0 where
  pub name : IsName e.path
  pub here :
      drop off blob
      ≡ pack_word (length e.path)
        ++ (pack_word (file_word e.content) ++ (e.path ++ (content_bytes e.content ++ rest)))
  pub size : off + 8 + length e.path + length (content_bytes e.content) + length rest ≡ length blob
  pub small : length blob + 8 < word

module _ (blob : List ℕ) (off : ℕ) (e : Entry) (rest : List ℕ) (h : At blob off e rest) where
  at_4 :
      drop (off + 4) blob
      ≡ pack_word (file_word e.content) ++ (e.path ++ (content_bytes e.content ++ rest))
  at_4 = drop-drop off 4 blob ∙ ap (λ t. drop 4 t) h.here

  at_8 : drop (off + 8) blob ≡ e.path ++ (content_bytes e.content ++ rest)
  at_8 = drop-drop off 8 blob ∙ ap (λ t. drop 8 t) h.here

  pub at_body : drop (off + 8 + length e.path) blob ≡ content_bytes e.content ++ rest
  at_body =
      drop-drop (off + 8) (length e.path) blob
      ∙ (ap (λ t. drop (length e.path) t) at_8
          ∙ drop-append e.path (content_bytes e.content ++ rest))

  path_len : word_at (drop off blob) 0 ≡ length e.path
  path_len = rw h.here (
      word_at-pack_word (length e.path)
        (pack_word (file_word e.content) ++ (e.path ++ (content_bytes e.content ++ rest)))
        (omega (arith, h.name.2)))

  path_read : cstr (take (length e.path) (drop (off + 8) blob)) ≡ e.path
  path_read =
      rw at_8
        (rw (take-append e.path (content_bytes e.content ++ rest)) (cstr-IsCString e.path h.name.0))

  at_wraps : (off + 8) % word ≡ off + 8
  at_wraps = omega (arith, h.size, h.small)

  body_wraps : (off + 8 + length e.path) % word ≡ off + 8 + length e.path
  body_wraps = omega (arith, h.size, h.small)

  -- The tests that do not end the loop.
  room : ltb (length blob) (off + 8) ≡ false
  room = ground (arith, h.size)

  some_name : length e.path == 0 ≡ false
  some_name = ground (arith, h.name)

  short : leb vfs_path_max (length e.path) ≡ false
  short = ground (arith, h.name)

  inside : ltb (length blob) (off + 8 + length e.path) ≡ false
  inside = ground (arith, h.size)

whole-bytes_at : (xs ys : List ℕ) → bytes_at (length xs) (xs ++ ys) ≡ xs
whole-bytes_at xs ys =
    let none_left : length xs - length (xs ++ ys) ≡ 0 = omega (arith, length-append xs ys) in
    rw (none_left, take-append xs ys) (append-nil xs)

pub entry_read :
    (blob : List ℕ) (off : ℕ) (path : List ℕ) (content : Option (List ℕ)) (rest : List ℕ)
    → At blob off (record { path = path; content = content }) rest
    → entry_at blob off
      ≡ some (
        record { path = path; content = content },
        off + 8 + length path + length (content_bytes content),
      )
unfolding entry_at
entry_read blob off path none rest h =
    let e : Entry = record { path = path; content = none } in
    let file_len : word_at (drop (off + 4) blob) 0 ≡ no_file =
      rw (at_4 blob off e rest h) (word_at-pack_word no_file (path ++ rest) (omega arith)) in
    let last : off + 8 + length path + 0 ≡ off + 8 + length path = omega arith in
    rw
      (
        path_len blob off e rest h,
        file_len,
        at_wraps blob off e rest h,
        body_wraps blob off e rest h,
        room blob off e rest h,
        some_name blob off e rest h,
        short blob off e rest h,
        inside blob off e rest h,
        path_read blob off e rest h,
        last,
      )
      refl
entry_read blob off path (some bytes) rest h =
    let e : Entry = record { path = path; content = some bytes } in
    let file_len : word_at (drop (off + 4) blob) 0 ≡ length bytes = rw (at_4 blob off e rest h) (
      word_at-pack_word (length bytes) (path ++ (bytes ++ rest))
        (omega (arith, h.size, h.small))) in
    let end : (off + 8 + length path + length bytes) % word ≡ off + 8 + length path + length bytes =
      omega (arith, h.size, h.small) in
    let is_file : length bytes == no_file ≡ false = ground (arith, h.size, h.small) in
    let fits : ltb (length blob) (off + 8 + length path + length bytes) ≡ false =
      ground (arith, h.size) in
    rw
      (
        path_len blob off e rest h,
        file_len,
        at_wraps blob off e rest h,
        body_wraps blob off e rest h,
        end,
        is_file,
        room blob off e rest h,
        some_name blob off e rest h,
        short blob off e rest h,
        inside blob off e rest h,
        fits,
        path_read blob off e rest h,
        at_body blob off e rest h,
        whole-bytes_at bytes rest,
      )
      refl
