-- ===== src/Gui/Calls/Valid.antt =====
-- The window table stays well formed, whatever calls come from whatever processes.
use zeros_i.Base.{
  ℕ, zero, suc, ◌+◌, ◌<◌, ◌≤◌, ◌≡◌, refl, ap, ◌∙◌, true, false, ◌&&◌, Bool, List, [], ◌∷◌, ◌==◌,
  set, get_or-set, get_or-replicate, length, length-set, replicate, arith, Bool-cases, inl, inr,
  if◌then◌else◌,
}
use zeros_i.Memory.{word}
use zeros_i.Mm.{Mm}
use zeros_i.Proc.Kill.{Sys, display_destroy_pid, destroy_wins}
use zeros_i.Gui.Window.{GuiWin, cleared_win, gui_win_max}
use zeros_i.Gui.Window.Ring.{IsRing}
use zeros_i.Gui.{Display, wins_of, caller, win_at, display_init}
use zeros_i.Gui.Calls.{Call, call}
use zeros_i.Gui.Calls.Effect.{IsDisplay, Effect, stays, changes, closes, opens, blanks}
use zeros_i.Gui.Calls.Made.{is_post, call-Effect}

cleared-IsRing : IsRing cleared_win
cleared-IsRing = record { cells = refl; reads = omega arith; writes = omega arith }

abbrev Valid : Display → Type 0
Valid d = IsDisplay (wins_of d) d.next_id

module _ (gwins : List GuiWin) (next_id : ℕ) (h : IsDisplay gwins next_id) (i : ℕ)
    (lt : i < length gwins) where
  at_set :
      (j : ℕ) (gw : GuiWin) → win_at (set gwins i gw) j ≡ (if i == j then gw else win_at gwins j)
  at_set j gw = get_or-set gwins i j gw cleared_win lt

  set-rings : (gw : GuiWin) → IsRing gw → (j : ℕ) → IsRing (win_at (set gwins i gw) j)
  set-rings gw ring j = elim (Bool-cases (i == j)) [
    | inl same ↦ rw (at_set j gw, same) ring
    | inr other ↦ rw (at_set j gw, other) (h.rings j)
  ]

  -- A window that is not in use any more, or still has the id it had.
  set-kept :
      (gw : GuiWin)
      → (gw.win_used ≡ true → (win_at gwins i).win_used ≡ true)
      → (gw.win_used ≡ true → gw.win_id ≡ (win_at gwins i).win_id)
      → IsRing gw
      → IsDisplay (set gwins i gw) next_id
  set-kept gw u same ring = record {
    len = length-set gwins i gw ∙ h.len;
    rings = set-rings gw ring;
    past = λ j used. ground (arith, at_set j gw, h.past i, h.past j, u, same);
    distinct = λ j k uj uk e.
        ground (
          arith,
          at_set j gw,
          at_set k gw,
          h.distinct i k,
          h.distinct j i,
          h.distinct j k,
          u,
          same,
        );
  }

  -- A free slot gets the next id.
  set-opened :
      (gw : GuiWin)
      → (win_at gwins i).win_used ≡ false
      → gw.win_id ≡ next_id
      → IsRing gw
      → IsDisplay (set gwins i gw) (next_id + 1)
  set-opened gw free new ring = record {
    len = length-set gwins i gw ∙ h.len;
    rings = set-rings gw ring;
    past = λ j used. ground (arith, at_set j gw, h.past j);
    distinct =
        λ j k uj uk e. ground (arith, at_set j gw, at_set k gw, h.past j, h.past k, h.distinct j k);
  }

carried : (a b : List GuiWin) (n m : ℕ) → a ≡ b → n ≡ m → IsDisplay b m → IsDisplay a n
carried a b n m p q h = rw (p, q) h

Effect-Valid :
    (host : Bool) (d d' : Display)
    → d.next_id + 1 < word
    → Valid d
    → Effect host d d'
    → Valid d' × (d'.next_id ≤ d.next_id + 1)
Effect-Valid host d d' low h (stays w n) = (carried _ _ _ _ w n h, omega (arith, n))
Effect-Valid host d d' low h (changes i gw w n lt u may u' same ring) = (
  carried _ _ _ _ w n (set-kept (wins_of d) d.next_id h i lt gw (λ x. u) (λ x. same) ring),
  omega (arith, n),
)
Effect-Valid host d d' low h (closes i w n lt u may) = (
  carried _ _ _ _ w n (
      set-kept (wins_of d) d.next_id h i lt cleared_win (λ x. u) (λ x. absurd (ground arith))
        cleared-IsRing),
  omega (arith, n),
)
Effect-Valid host d d' low h (opens i gw w n lt u u' same ring) =
    let n' : d'.next_id ≡ d.next_id + 1 = omega (arith, n) in
    (
      carried _ _ _ _ w n' (set-opened (wins_of d) d.next_id h i lt gw u same ring),
      omega (arith, n'),
    )
Effect-Valid host d d' low h (blanks i gw w n lt u u' ring) = (
  carried _ _ _ _ w n (
      set-kept (wins_of d) d.next_id h i lt gw (λ x. absurd (ground (arith, u')))
        (λ x. absurd (ground (arith, u'))) ring),
  omega (arith, n),
)

-- The death of a client closes its windows.
at-destroy_wins :
    (pid : ℕ) (gwins : List GuiWin) (mm : Mm) (j : ℕ)
    → win_at (destroy_wins pid gwins mm).0 j ≡ (
        if (win_at gwins j).win_used && ((win_at gwins j).client_pid == pid)
        then cleared_win
        else win_at gwins j)
unfolding destroy_wins
at-destroy_wins pid [] mm j = ground arith
at-destroy_wins pid (w ∷ gwins) mm zero = refl
at-destroy_wins pid (w ∷ gwins) mm (suc j) = at-destroy_wins pid gwins _ j

length-destroy_wins :
    (pid : ℕ) (gwins : List GuiWin) (mm : Mm) → length (destroy_wins pid gwins mm).0 ≡ length gwins
unfolding destroy_wins
length-destroy_wins pid [] mm = refl
length-destroy_wins pid (w ∷ gwins) mm = ap suc (length-destroy_wins pid gwins _)

destroy_wins-IsDisplay :
    (pid : ℕ) (gwins : List GuiWin) (mm : Mm) (next_id : ℕ)
    → IsDisplay gwins next_id
    → IsDisplay (destroy_wins pid gwins mm).0 next_id
destroy_wins-IsDisplay pid gwins mm next_id h =
    let at = at-destroy_wins pid gwins mm in
    record {
      len = length-destroy_wins pid gwins mm ∙ h.len;
      rings = λ j.
          elim (Bool-cases ((win_at gwins j).win_used && ((win_at gwins j).client_pid == pid))) [
            | inl gone ↦ rw (at j, gone) cleared-IsRing
            | inr kept ↦ rw (at j, kept) (h.rings j)
          ];
      past = λ j used. ground (arith, at j, h.past j);
      distinct = λ j k uj uk e. ground (arith, at j, at k, h.distinct j k);
    }

-- What can happen to the display server's state: calls of this file, in any number `n`, by whatever
-- process is current; deaths of clients; and whatever else the kernel does, which leaves the windows
-- and the counter alone.
pub data Moves : ℕ → Display → Display → Type 0 where
  done : (d : Display) → Moves zero d d
  calls : (n : ℕ) (c : Call) (d d' : Display) → Moves n (call c d) d' → Moves (suc n) d d'
  dies :
      (n pid : ℕ) (d d' : Display)
      → Moves n
          (record d { slices = record d.slices { sys = display_destroy_pid pid d.slices.sys } })
          d'
      → Moves n d d'
  elsewhere :
      (n : ℕ) (d d1 d' : Display)
      → wins_of d1 ≡ wins_of d
      → d1.next_id ≡ d.next_id
      → Moves n d1 d'
      → Moves n d d'

dies-Valid :
    (pid : ℕ) (s : Sys) (next_id : ℕ)
    → IsDisplay s.gwins next_id
    → IsDisplay (display_destroy_pid pid s).gwins next_id
unfolding display_destroy_pid
dies-Valid pid s next_id h = elim (Bool-cases (pid == 0)) [
  | inl z ↦ rw (display_destroy_pid, z) h
  | inr nz ↦ rw (display_destroy_pid, nz) (destroy_wins-IsDisplay pid s.gwins s.mm next_id h)
]

Moves-Valid : (n : ℕ) (d d' : Display) → d.next_id + n < word → Valid d → Moves n d d' → Valid d'
Moves-Valid _ _ _ low h (done d) = h
Moves-Valid _ _ _ low h (calls n c d d' m) =
    let (h', next) =
      Effect-Valid (is_post c && (caller d).cons_host) d (call c d) (omega arith) h
        (call-Effect c d h.rings) in
    Moves-Valid n (call c d) d' (omega (arith, next)) h' m
Moves-Valid _ _ _ low h (dies n pid d d' m) =
    Moves-Valid n _ d' low (dies-Valid pid d.slices.sys d.next_id h) m
Moves-Valid _ _ _ low h (elsewhere n d d1 d' w next m) =
    Moves-Valid n d1 d' (omega (arith, next)) (carried _ _ _ _ w next h) m

start : (j : ℕ) → win_at (replicate gui_win_max cleared_win) j ≡ cleared_win
start j = get_or-replicate gui_win_max j cleared_win

init-Valid : (d : Display) → Valid (display_init d)
unfolding display_init
init-Valid d = record {
  len = refl;
  rings = λ j. rw (start j) cleared-IsRing;
  past = λ j u. absurd (ground (arith, start j));
  distinct = λ i j u v e. absurd (ground (arith, start i));
}

-- From `display_init` on, as long as fewer than 2 ^ 32 - 1 calls are made: the table has its 8 slots,
-- the ids of windows in use are below the counter and differ, and every window's event indices stay
-- in its array of 16 cells, whatever calls come from whatever processes and whichever clients die.
pub init-Moves :
    (n : ℕ) (d d' : Display)
    → n + 1 < word
    → Moves n (display_init d) d'
    → IsDisplay (wins_of d') d'.next_id
unfolding display_init
init-Moves n d d' low m = Moves-Valid n (display_init d) d' (omega arith) (init-Valid d) m
