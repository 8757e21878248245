-- ===== src/Initrd/RoundTrip.antt =====
-- What scripts/pack_initrd.py packs, `initrd_unpack` takes out again.
use zeros_i.Base.{
  ℕ, zero, suc, ◌+◌, ◌%◌, ◌<◌, ◌≡◌, refl, ap, ◌∙◌, true, none, some, List, [], ◌∷◌, ◌++◌, ltb,
  length, drop, arith,
}
use mathlib.Core.List.{append_assoc}
use zeros_i.Memory.{word}
use zeros_i.Vfs.{Vfs}
use zeros_i.Vfs.Calls.{Fat}
use zeros_i.Initrd.{
  Entry, entry_at, unpack_entry, unpack_from, initrd_unpack, pack_word, file_word, content_bytes,
  pack,
}
use zeros_i.Str.{IsCString}
use zeros_i.Initrd.Place.{IsInTree, IsReady, placed, unpack_entry-placed}
use zeros_i.Initrd.Reading.{IsName, At, at_body, entry_read, length-append, drop-drop, drop-append}

abbrev pub AllNames : List Entry → Type 0
AllNames [] = Unit
AllNames (e ∷ entries) = IsName e.path × AllNames entries

abbrev pub AllInTree : List Entry → Type 0
AllInTree [] = Unit
AllInTree (e ∷ entries) = (IsCString e.path × IsInTree e.path) × AllInTree entries

IsInTree-IsName : (path : List ℕ) → IsCString path → IsInTree path → IsName path
IsInTree-IsName [] c h = elim h [ ]
IsInTree-IsName (k ∷ path) c h = (c, omega arith, omega (arith, h.1))

AllInTree-AllNames : (entries : List Entry) → AllInTree entries → AllNames entries
AllInTree-AllNames [] h = tt
AllInTree-AllNames (e ∷ entries) h =
    (IsInTree-IsName e.path h.0.0 h.0.1, AllInTree-AllNames entries h.1)

no_entry : (blob : List ℕ) → length blob + 8 < word → entry_at blob (length blob) ≡ none
unfolding entry_at
no_entry blob small =
    let at : (length blob + 8) % word ≡ length blob + 8 = omega (arith, small) in
    let past : ltb (length blob) (length blob + 8) ≡ true = ground arith in rw (at, past) refl

length-pack :
    (e : Entry) (entries : List Entry)
    → length (pack (e ∷ entries))
      ≡ 8 + length e.path + length (content_bytes e.content) + length (pack entries)
unfolding pack
length-pack e entries = omega (
  arith,
  length-append (e.path ++ content_bytes e.content) (pack entries),
  length-append e.path (content_bytes e.content),
)

module _ {F : Type 0} (fat : Fat F) where
  abbrev pub unpack_all : List Entry → Vfs × F → Vfs × F
  unpack_all [] s = s
  unpack_all (e ∷ entries) s = unpack_all entries (unpack_entry fat e s)

  unpack_packed :
      (entries : List Entry) (fuel : ℕ) (blob : List ℕ) (off : ℕ) (s : Vfs × F)
      → AllNames entries
      → drop off blob ≡ pack entries
      → off + length (pack entries) ≡ length blob
      → length blob + 8 < word
      → length entries < fuel
      → unpack_from fat fuel blob off s ≡ some (unpack_all entries s)
  unfolding unpack_from pack
  unpack_packed entries zero blob off s names here size small enough =
      absurd (omega (arith, enough))
  unpack_packed [] (suc k) blob off s names here size small enough =
      let e : off ≡ length blob = omega (arith, size) in
      rw (unpack_from, e, no_entry blob small) refl
  unpack_packed (e ∷ entries) (suc k) blob off s names here size small enough =
      let content = content_bytes e.content in
      let words =
        λ (t : List ℕ). pack_word (length e.path) ++ (pack_word (file_word e.content) ++ t) in
      let len = length-pack e entries in
      let at : At blob off e (pack entries) = record {
        name = names.0;
        here = here ∙ ap words (append_assoc e.path content (pack entries));
        size = omega (arith, size, len);
        small = small;
      } in
      let body = off + 8 + length e.path in
      let after =
        drop-drop body (length content) blob
        ∙ (ap (λ t. drop (length content) t) (at_body blob off e (pack entries) at)
            ∙ drop-append content (pack entries)) in
      rw (unpack_from, entry_read blob off e.path e.content (pack entries) at)
        (unpack_packed entries k blob (body + length content) (unpack_entry fat e s) names.1 after
          (omega (arith, size, len)) small (omega (arith, enough)))

  abbrev pub place_all : List Entry → Vfs × F → Vfs × F
  place_all [] s = s
  place_all (e ∷ entries) s = place_all entries (placed fat e.path e.content s)

  -- Each file comes after its directory.
  abbrev pub AllReady : List Entry → Vfs × F → Type 0
  AllReady [] s = Unit
  AllReady (e ∷ entries) s =
      IsReady fat e.path e.content s × AllReady entries (placed fat e.path e.content s)

  unpack_all-place_all :
      (entries : List Entry) (s : Vfs × F)
      → AllInTree entries
      → AllReady entries s
      → unpack_all entries s ≡ place_all entries s
  unpack_all-place_all [] s names ready = refl
  unpack_all-place_all (e ∷ entries) s names ready =
      ap (unpack_all entries) (unpack_entry-placed fat e s names.0.0 names.0.1 ready.0)
      ∙ unpack_all-place_all entries (placed fat e.path e.content s) names.1 ready.1

-- Take entries whose names are C strings that begin with a slash and that "/sys" fits in front of, in
-- less than 128 bytes, in an order in which the directory of each file is there when its turn comes,
-- and whose archive is shorter than 2 ^ 32 - 8 bytes. Unpacking the archive ends after a round for each
-- entry and one more, and has done just this, in order: made each directory, under "/sys" and its
-- name, by one call of `vfs_mkdir`, and written each file there by one call of `vfs_write_file` with
-- exactly its bytes. What these two calls return is not looked at.
pub unpack-pack :
    {F : Type 0} (fat : Fat F) (entries : List Entry) (fuel : ℕ) (s : Vfs × F)
    → AllInTree entries
    → AllReady fat entries s
    → length (pack entries) + 8 < word
    → length entries < fuel
    → initrd_unpack fat fuel (pack entries) s ≡ some (place_all fat entries s)
unpack-pack fat entries fuel s names ready small enough =
    unpack_packed fat entries fuel (pack entries) 0 s (AllInTree-AllNames entries names) refl
      (omega arith) small enough
    ∙ ap some (unpack_all-place_all fat entries s names ready)
