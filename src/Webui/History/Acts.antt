-- ===== src/Webui/History/Acts.antt =====
-- What the user does to the page, and what becomes of the requests, as one sequence of events
-- (server/webui/src/pages/ConnectionHistory.tsx). A disabled button does nothing.
use pro_identity_access.Base.{
  ℕ, ◌+◌, ◌-◌, ◌*◌, min, max, Bool, true, false, not, ◌&&◌, ◌||◌, String, List, [], ◌∷◌, ◌≡◌, ◌⊎◌,
  refl, inl, inr, nat_eq, ◌==◌, if◌then◌else◌, Bool-cases, arith,
}
use pro_identity_access.Async.{Thrown}
use pro_identity_access.Webui.History.{
  History, Change, set_q, Answer, update, clear, paused, resize, go_to, page, page_count,
  page_numbers, page_sizes, has_nat, start, stop, receive, fail,
}
use pro_identity_access.Webui.History.Numbers.{shows}

pub data Event : Type 0 where
  typed : String → Event  -- in the search box
  rested : Event  -- 300 ms later
  filtered : Change → Event
  cleared : Event
  sized : ℕ → Event
  first_page previous_page next_page last_page : Event
  numbered : ℕ → Event
  asked : Event
  answered : Answer → Event
  failed : Thrown → Event

-- The line with the buttons is hidden while there are no events.
abbrev is_hidden : History → Bool
is_hidden h = nat_eq h.total 0

-- A button that is disabled or leads to a page.
abbrev press : Bool → ℕ → History → History
press disabled p h = if disabled then h else go_to p h

unfoldable act : Event → History → History
unfolding update clear paused resize go_to page page_count
act (typed s) h = record h { search = s }
act rested h = paused h
act (filtered c) h = update c h
act cleared h = clear h
act (sized n) h = if not (is_hidden h) && has_nat n page_sizes then resize n h else h
act first_page h = press (is_hidden h || nat_eq (page h) 1 || h.loading) 1 h
act previous_page h = press (is_hidden h || nat_eq (page h) 1 || h.loading) (page h - 1) h
act next_page h = press (is_hidden h || nat_eq (page h) (page_count h) || h.loading) (page h + 1) h
act last_page h =
    press (is_hidden h || nat_eq (page h) (page_count h) || h.loading) (page_count h) h
act (numbered p) h =
    if not (is_hidden h) && shows p (page_numbers (page h) (page_count h))
    then press h.loading p h
    else h
act asked h = start h
act (answered a) h = stop (receive a h)
act (failed e) h = stop (fail e h)

unfoldable pub run : List Event → History → History
unfolding act
run [] h = h
run (e ∷ es) h = run es (act e h)

-- The size of a page is one of those on offer, and the list starts where a page does.
abbrev pub IsPaged : History → Type 0
IsPaged h = (has_nat h.page_size page_sizes ≡ true) × ((k : ℕ) × (h.offset ≡ k * h.page_size))

-- Where the parts of the history that decide on the request stay, or the list starts over.
abbrev Restarts : History → History → Type 0
Restarts h h' = ((h'.filters ≡ h.filters) × (h'.page_size ≡ h.page_size)) ⊎ (h'.offset ≡ 0)

second_true : (b c : Bool) → (b && c) ≡ true → c ≡ true
second_true b c h = ground (arith, h)

from_start : (s : ℕ) → 0 ≡ 0 * s
from_start s = omega arith

module _ (h : History) (ok : IsPaged h) where
  go_to-IsPaged : (p : ℕ) → IsPaged (go_to p h)
  unfolding go_to
  go_to-IsPaged p = let (s, o) = ok in (s, (min (max p 1) (page_count h) - 1, refl))

  update-IsPaged : (c : Change) → IsPaged (update c h)
  unfolding update
  update-IsPaged c = let (s, o) = ok in (s, (0, from_start _))

  press-IsPaged : (disabled : Bool) (p : ℕ) → IsPaged (press disabled p h)
  press-IsPaged true p = ok
  press-IsPaged false p = go_to-IsPaged p

  numbered-IsPaged : (there : Bool) (p : ℕ) → IsPaged (if there then press h.loading p h else h)
  numbered-IsPaged true p = press-IsPaged h.loading p
  numbered-IsPaged false p = ok

  paused-IsPaged : IsPaged (paused h)
  unfolding paused
  paused-IsPaged = elim (Bool-cases (h.search == h.filters.q)) [
    | inl e ↦ rw e ok
    | inr e ↦ rw e (update-IsPaged (set_q h.search))
  ]

  sized-IsPaged : (b : Bool) (n : ℕ) → IsPaged (if b && has_nat n page_sizes then resize n h else h)
  unfolding resize
  sized-IsPaged b n = elim (Bool-cases (b && has_nat n page_sizes)) [
    | inl e ↦ rw e (second_true b (has_nat n page_sizes) e, (0, from_start _))
    | inr e ↦ rw e ok
  ]

  act-IsPaged : (e : Event) → IsPaged (act e h)
  unfolding act clear
  act-IsPaged (typed s) = ok
  act-IsPaged rested = paused-IsPaged
  act-IsPaged (filtered c) = update-IsPaged c
  act-IsPaged cleared = let (s, o) = ok in (s, (0, from_start _))
  act-IsPaged (sized n) = sized-IsPaged (not (is_hidden h)) n
  act-IsPaged first_page = press-IsPaged _ 1
  act-IsPaged previous_page = press-IsPaged _ (page h - 1)
  act-IsPaged next_page = press-IsPaged _ (page h + 1)
  act-IsPaged last_page = press-IsPaged _ (page_count h)
  act-IsPaged (numbered p) = numbered-IsPaged _ p
  act-IsPaged asked = ok
  act-IsPaged (answered a) = ok
  act-IsPaged (failed e) = ok

-- Whatever the user does and however the requests end, the size of the page stays one of the sizes
-- on offer, and the offset that is asked for stays the start of a page of this size.
pub run-IsPaged : (es : List Event) (h : History) → IsPaged h → IsPaged (run es h)
unfolding run
run-IsPaged [] h ok = ok
run-IsPaged (e ∷ es) h ok = run-IsPaged es (act e h) (act-IsPaged h ok e)

module _ (h : History) where
  Restarts-same : Restarts h h
  Restarts-same = inl (refl, refl)

  go_to-Restarts : (p : ℕ) → Restarts h (go_to p h)
  unfolding go_to
  go_to-Restarts p = inl (refl, refl)

  update-Restarts : (c : Change) → Restarts h (update c h)
  unfolding update
  update-Restarts c = inr refl

  resize-Restarts : (n : ℕ) → Restarts h (resize n h)
  unfolding resize
  resize-Restarts n = inr refl

  press-Restarts : (disabled : Bool) (p : ℕ) → Restarts h (press disabled p h)
  press-Restarts true p = Restarts-same
  press-Restarts false p = go_to-Restarts p

  numbered-Restarts : (there : Bool) (p : ℕ) → Restarts h (if there then press h.loading p h else h)
  numbered-Restarts true p = press-Restarts h.loading p
  numbered-Restarts false p = Restarts-same

  sized-Restarts : (there : Bool) (n : ℕ) → Restarts h (if there then resize n h else h)
  sized-Restarts true n = resize-Restarts n
  sized-Restarts false n = Restarts-same

  paused-Restarts : Restarts h (paused h)
  unfolding paused
  paused-Restarts = elim (Bool-cases (h.search == h.filters.q)) [
    | inl e ↦ rw e Restarts-same
    | inr e ↦ rw e (update-Restarts (set_q h.search))
  ]

-- Filters and sizes apply to the whole list: an event that changes a filter or the size of a page
-- leads back to the first page.
act-Restarts : (e : Event) (h : History) → Restarts h (act e h)
unfolding act clear
act-Restarts (typed s) h = Restarts-same h
act-Restarts rested h = paused-Restarts h
act-Restarts (filtered c) h = update-Restarts h c
act-Restarts cleared h = inr refl
act-Restarts (sized n) h = sized-Restarts h (not (is_hidden h) && has_nat n page_sizes) n
act-Restarts first_page h = press-Restarts h (is_hidden h || nat_eq (page h) 1 || h.loading) 1
act-Restarts previous_page h =
    press-Restarts h (is_hidden h || nat_eq (page h) 1 || h.loading) (page h - 1)
act-Restarts next_page h =
    press-Restarts h (is_hidden h || nat_eq (page h) (page_count h) || h.loading) (page h + 1)
act-Restarts last_page h =
    press-Restarts h (is_hidden h || nat_eq (page h) (page_count h) || h.loading) (page_count h)
act-Restarts (numbered p) h =
    numbered-Restarts h (not (is_hidden h) && shows p (page_numbers (page h) (page_count h))) p
act-Restarts asked h = Restarts-same h
act-Restarts (answered a) h = Restarts-same h
act-Restarts (failed e) h = Restarts-same h
