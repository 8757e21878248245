-- ===== src/Gui/Window/Ring/Queue.antt =====
-- The events of a window behave as a queue of at most 15.
use zeros_i.Base.{
  ℕ, ◌+◌, ◌%◌, ◌≡◌, refl, subst, ap, ◌∙◌, sym, Bool, true, false, ◌&&◌, Option, none, some, List,
  [], ◌∷◌, ◌++◌, ◌==◌, if◌then◌else◌, set, length, length-set, set-get_or, arith, Bool-cases,
  Option-cases, inl, inr,
}
use zeros_i.Gui.Window.{
  GuiEvt, GuiWin, cleared_evt, find_waiting, evt_at, inp_mouse, inp_resize, moved, pointed,
  last_evt, put_evt, append_evt, post_pointer, post_evt, poll_evt,
}
use zeros_i.Gui.Window.Ring.{
  waiting_from, waiting, IsRing, change_first, change_first-none, change_first-some,
  waiting_from-snoc, length-waiting_from, waiting_from_enough,
}

abbrev last_is_mouse : List GuiEvt → Bool
last_is_mouse [] = false
last_is_mouse (e ∷ []) = e.evt_type == inp_mouse
last_is_mouse (e ∷ (e' ∷ q)) = last_is_mouse (e' ∷ q)

abbrev change_last : (GuiEvt → GuiEvt) → List GuiEvt → List GuiEvt
change_last f [] = []
change_last f (e ∷ []) = f e ∷ []
change_last f (e ∷ (e' ∷ q)) = e ∷ change_last f (e' ∷ q)

-- Replaces the first event of a type, if there is one, and leaves the rest to `other`.
merge : Option (List GuiEvt) → Bool × List GuiEvt → Bool × List GuiEvt
merge none other = other
merge (some q) other = (true, q)

add : GuiEvt → List GuiEvt → Bool × List GuiEvt
add e q =
    if length q == 15
    then (if e.evt_type == inp_mouse
        then merge (change_first inp_mouse (pointed e) q) (false, q)
        else (false, q))
    else (true, q ++ (e ∷ []))

add_pointer : GuiEvt → List GuiEvt → Bool × List GuiEvt
add_pointer e q =
    if (e.evt_type == inp_mouse) && last_is_mouse q
    then (true, change_last (pointed e) q)
    else add e q

-- What posting an event does to the list of those that wait: a resize goes into the first resize, a
-- mouse event into a mouse event at the end; any other event goes to the end while fewer than 15
-- wait. When 15 wait, a mouse event goes into the first mouse event, and others are refused.
pub post_queue : GuiEvt → List GuiEvt → Bool × List GuiEvt
unfolding merge add_pointer add
post_queue e q =
    if e.evt_type == inp_resize
    then merge (change_first inp_resize (moved e) q) (add_pointer e q)
    else add_pointer e q

pub poll_queue : List GuiEvt → Option GuiEvt × List GuiEvt
poll_queue [] = (none, [])
poll_queue (e ∷ q) = (some e, q)

-- The window does to the waiting events what `r` says.
abbrev Agrees : Bool × GuiWin → Bool × List GuiEvt → Type 0
Agrees r s = (r.0 ≡ s.0) × (waiting r.1 ≡ s.1) × IsRing r.1

put_evt-IsRing : (g : GuiWin) (i : ℕ) (e : GuiEvt) → IsRing g → IsRing (put_evt i e g)
put_evt-IsRing g i e h = record {
  cells = length-set g.ev i e ∙ h.cells;
  reads = h.reads;
  writes = h.writes;
}

-- A search, and what is done with the cell that it finds.
merge-Agrees :
    (type : ℕ) (f : GuiEvt → GuiEvt) (g : GuiWin) (other : Bool × GuiWin)
    (spec : Bool × List GuiEvt)
    → IsRing g
    → Agrees other spec
    → Agrees
        (elim (find_waiting type g) [
          | none ↦ other
          | some i ↦ (true, put_evt i (f (evt_at g i)) g)
        ])
        (merge (change_first type f (waiting g)) spec)
unfolding merge
merge-Agrees type f g other spec h agrees = elim (Option-cases (find_waiting type g)) [
  | inl e ↦ rw (e, change_first-none g.ev h.cells type g.ev_w 16 g.ev_r f e) agrees
  | inr (i, e) ↦
      rw (e, change_first-some g.ev h.cells type g.ev_w 16 g.ev_r i f h.writes h.reads e)
        (refl, refl, put_evt-IsRing g i (f (evt_at g i)) h)
]

append_evt-Agrees :
    (e : GuiEvt) (g : GuiWin) → IsRing g → Agrees (append_evt e g) (add e (waiting g))
unfolding append_evt add
append_evt-Agrees e g h =
    let len = length-waiting_from g.ev h.cells g.ev_w 16 g.ev_r h.writes h.reads (omega arith) in
    elim (Bool-cases ((g.ev_w + 1) % 16 == g.ev_r)) [
      | inl full ↦
          let l : (length (waiting g) == 15) ≡ true = ground (arith, len, h.writes, h.reads) in
          elim (Bool-cases (e.evt_type == inp_mouse)) [
            | inl mouse ↦
                rw (full, l, mouse)
                  (merge-Agrees inp_mouse (pointed e) g (false, g) (false, waiting g) h
                    (refl, refl, h))
            | inr other ↦ rw (full, l, other) (refl, refl, h)
          ]
      | inr room ↦
          let l : (length (waiting g) == 15) ≡ false = ground (arith, len, h.writes, h.reads) in
          rw (room, l)
            (
              refl,
              waiting_from-snoc g.ev h.cells g.ev_w 16 g.ev_r e h.writes h.reads
                  (ground (arith, h.writes, h.reads)) (omega arith),
              record {
                cells = length-set g.ev g.ev_w e ∙ h.cells;
                reads = h.reads;
                writes = omega arith;
              },
            )
    ]

last_is_mouse-snoc :
    (q : List GuiEvt) (e : GuiEvt) → last_is_mouse (q ++ (e ∷ [])) ≡ (e.evt_type == inp_mouse)
last_is_mouse-snoc [] e = refl
last_is_mouse-snoc (d ∷ []) e = refl
last_is_mouse-snoc (d ∷ (d' ∷ q)) e = last_is_mouse-snoc (d' ∷ q) e

change_last-snoc :
    (f : GuiEvt → GuiEvt) (q : List GuiEvt) (e : GuiEvt)
    → change_last f (q ++ (e ∷ [])) ≡ q ++ (f e ∷ [])
change_last-snoc f [] e = refl
change_last-snoc f (d ∷ []) e = refl
change_last-snoc f (d ∷ (d' ∷ q)) e = ap (λ r. d ∷ r) (change_last-snoc f (d' ∷ q) e)

-- A new event in the last cell of those that wait.
replace_last :
    (g : GuiWin) (e : GuiEvt)
    → IsRing g
    → (g.ev_r == g.ev_w) ≡ false
    → waiting (put_evt (last_evt g) e g) ≡ waiting_from g.ev (last_evt g) 16 g.ev_r ++ (e ∷ [])
replace_last g e h more =
    let back : (last_evt g + 1) % 16 ≡ g.ev_w = omega (arith, h.writes) in
    subst
      (λ (w : ℕ).
        waiting_from (set g.ev (last_evt g) e) w 16 g.ev_r
        ≡ waiting_from g.ev (last_evt g) 16 g.ev_r ++ (e ∷ []))
      back
      (waiting_from-snoc g.ev h.cells (last_evt g) 16 g.ev_r e (omega arith) h.reads
        (ground (arith, h.writes, h.reads)) (omega arith))

split_last :
    (g : GuiWin)
    → IsRing g
    → (g.ev_r == g.ev_w) ≡ false
    → waiting g ≡ waiting_from g.ev (last_evt g) 16 g.ev_r ++ (evt_at g (last_evt g) ∷ [])
split_last g h more =
    subst
      (λ (ev : List GuiEvt).
        waiting_from ev g.ev_w 16 g.ev_r
        ≡ waiting_from g.ev (last_evt g) 16 g.ev_r ++ (evt_at g (last_evt g) ∷ []))
      (set-get_or g.ev (last_evt g) cleared_evt) (replace_last g (evt_at g (last_evt g)) h more)

waiting_none : (g : GuiWin) → (g.ev_r == g.ev_w) ≡ true → waiting g ≡ []
unfolding waiting_from
waiting_none g e = rw e refl

post_pointer-Agrees :
    (e : GuiEvt) (g : GuiWin) → IsRing g → Agrees (post_pointer e g) (add_pointer e (waiting g))
unfolding post_pointer add_pointer
post_pointer-Agrees e g h = elim (Bool-cases (e.evt_type == inp_mouse)) [
  | inr other ↦ rw other (append_evt-Agrees e g h)
  | inl mouse ↦ elim (Bool-cases (g.ev_r == g.ev_w)) [
    | inl empty ↦
        let q = waiting_none g empty in
        rw (mouse, empty, ap last_is_mouse q) (append_evt-Agrees e g h)
    | inr more ↦
        let q = split_last g h more in
        let m : last_is_mouse (waiting g) ≡ ((evt_at g (last_evt g)).evt_type == inp_mouse) =
          ap last_is_mouse q
          ∙ last_is_mouse-snoc (waiting_from g.ev (last_evt g) 16 g.ev_r) (evt_at g (last_evt g)) in
        elim (Bool-cases ((evt_at g (last_evt g)).evt_type == inp_mouse)) [
          | inr key ↦ rw (mouse, more, m ∙ key, key) (append_evt-Agrees e g h)
          | inl over ↦
              rw (mouse, more, m ∙ over, over)
                (
                  refl,
                  replace_last g (pointed e (evt_at g (last_evt g))) h more
                      ∙ sym (
                          change_last-snoc (pointed e) (waiting_from g.ev (last_evt g) 16 g.ev_r)
                            (evt_at g (last_evt g)))
                      ∙ ap (change_last (pointed e)) (sym q),
                  put_evt-IsRing g (last_evt g) (pointed e (evt_at g (last_evt g))) h,
                )
        ]
  ]
]

pub post_evt-Agrees :
    (e : GuiEvt) (g : GuiWin) → IsRing g → Agrees (post_evt e g) (post_queue e (waiting g))
unfolding post_evt post_queue
post_evt-Agrees e g h = elim (Bool-cases (e.evt_type == inp_resize)) [
  | inl resize ↦ rw resize (
      merge-Agrees inp_resize (moved e) g (post_pointer e g) (add_pointer e (waiting g)) h
        (post_pointer-Agrees e g h))
  | inr other ↦ rw other (post_pointer-Agrees e g h)
]

-- The first of the waiting events, and the others.
waiting-cons :
    (g : GuiWin)
    → IsRing g
    → (g.ev_r == g.ev_w) ≡ false
    → waiting g ≡ evt_at g g.ev_r ∷ waiting_from g.ev g.ev_w 16 ((g.ev_r + 1) % 16)
waiting-cons g h more =
    let fewer =
      waiting_from_enough g.ev g.ev_w 15 ((g.ev_r + 1) % 16) h.writes (omega arith)
        (ground (arith, h.writes, h.reads)) in
    unfold waiting_from in (rw more (ap (λ q. evt_at g g.ev_r ∷ q) (sym fewer)))

abbrev PollAgrees : Option GuiEvt × GuiWin → Option GuiEvt × List GuiEvt → Type 0
PollAgrees r s = (r.0 ≡ s.0) × (waiting r.1 ≡ s.1) × IsRing r.1

pub poll_evt-Agrees : (g : GuiWin) → IsRing g → PollAgrees (poll_evt g) (poll_queue (waiting g))
unfolding poll_evt poll_queue
poll_evt-Agrees g h = elim (Bool-cases (g.ev_r == g.ev_w)) [
  | inl empty ↦ let q = waiting_none g empty in rw (empty, ap poll_queue q) (refl, q, h)
  | inr more ↦
      rw (more, ap poll_queue (waiting-cons g h more))
        (refl, refl, record { cells = h.cells; reads = omega arith; writes = h.writes })
]

-- The calls that reach the events of one window, and what they return.
pub data EvtCall : Type 0 where
  post : GuiEvt → EvtCall
  poll : EvtCall

pub data Reply : Type 0 where
  posted : Bool → Reply
  polled : Option GuiEvt → Reply

pub run_window : List EvtCall → GuiWin → List Reply
run_window [] g = []
run_window (post e ∷ calls) g = posted (post_evt e g).0 ∷ run_window calls (post_evt e g).1
run_window (poll ∷ calls) g = polled (poll_evt g).0 ∷ run_window calls (poll_evt g).1

pub run_queue : List EvtCall → List GuiEvt → List Reply
run_queue [] q = []
run_queue (post e ∷ calls) q = posted (post_queue e q).0 ∷ run_queue calls (post_queue e q).1
run_queue (poll ∷ calls) q = polled (poll_queue q).0 ∷ run_queue calls (poll_queue q).1

-- However posts and polls follow each other, a window whose array has 16 cells and whose indices lie
-- in it answers all of them as the list of its waiting events does by `post_queue` and `poll_queue`:
-- polls take the events in the order of that list, and 15 wait at most.
pub run_window-run_queue :
    (calls : List EvtCall) (g : GuiWin)
    → IsRing g
    → run_window calls g ≡ run_queue calls (waiting g)
unfolding run_window run_queue
run_window-run_queue [] g h = refl
run_window-run_queue (post e ∷ calls) g h =
    let (done, left, h') = post_evt-Agrees e g h in
    let ih = run_window-run_queue calls (post_evt e g).1 h' in
    ap (λ b. posted b ∷ run_window calls (post_evt e g).1) done
    ∙ ap (λ r. posted (post_queue e (waiting g)).0 ∷ r) (ih ∙ ap (run_queue calls) left)
run_window-run_queue (poll ∷ calls) g h =
    let (got, left, h') = poll_evt-Agrees g h in
    let ih = run_window-run_queue calls (poll_evt g).1 h' in
    ap (λ b. polled b ∷ run_window calls (poll_evt g).1) got
    ∙ ap (λ r. polled (poll_queue (waiting g)).0 ∷ r) (ih ∙ ap (run_queue calls) left)

-- Only the events and their indices change.
pub window-post_evt :
    (e : GuiEvt) (g : GuiWin)
    → ((post_evt e g).1.win_used ≡ g.win_used) × ((post_evt e g).1.win_id ≡ g.win_id)
unfolding post_evt post_pointer append_evt
window-post_evt e g = (ground arith, ground arith)

pub window-poll_evt :
    (g : GuiWin) → ((poll_evt g).1.win_used ≡ g.win_used) × ((poll_evt g).1.win_id ≡ g.win_id)
unfolding poll_evt
window-poll_evt g = (ground arith, ground arith)
