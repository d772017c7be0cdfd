-- ===== src/Webui/History/Pages.antt =====
-- The pages of the list (server/webui/src/pages/ConnectionHistory.tsx): which events each shows.
use native.Mathlib.Nat.{
  mul-div_left, div-mul-le_self, le-div_iff_mul-le, div-eq_of_lt-le, lt-div-mul-add,
}
use pro_identity_access.Base.{
  ℕ, zero, suc, ◌+◌, ◌-◌, ◌*◌, ◌/◌, ◌≤◌, ◌<◌, min, max, ◌≡◌, ◌↔◌, ap, ◌∙◌, arith,
}
use pro_identity_access.Webui.History.{History, ceil_div, page, page_count, go_to, from, to}

starts_below : (q s t : ℕ) → 0 < s → 0 < t → q + 1 ≤ max 1 (ceil_div t s) → q * s < t
starts_below zero s t hs ht h = omega arith
starts_below (suc q) s t hs ht h =
    let l = (le-div_iff_mul-le {k = s} {x = suc q + 1} {y = t + (s - 1)} hs).0 (omega arith) in
    omega arith

exists_page : (i s t : ℕ) → 0 < s → i < t → i / s + 1 ≤ max 1 (ceil_div t s)
exists_page i s t hs h =
    let b = div-mul-le_self i s in
    let l = (le-div_iff_mul-le {k = s} {x = i / s + 1} {y = t + (s - 1)} hs).1 (omega arith) in
    omega arith

page_of : (p i s : ℕ) → p * s ≤ i → i < p * s + s → i / s ≡ p
page_of p i s l u = div-eq_of_lt-le {k = p} s l (omega arith)

clamped : (p c : ℕ) → 0 < p → p ≤ c → min (max p 1) c ≡ p
clamped p c hp hc = omega arith

-- If there are events, "go to page" leads to the page with that number, or to the first or the last
-- one if there is none; and what this page says it shows is not empty and within the total.
page-go_to :
    (p : ℕ) (h : History)
    → 0 < h.page_size
    → 0 < h.total
    → (page (go_to p h) ≡ min (max p 1) (page_count h))
      × ((from (go_to p h) ≤ to (go_to p h)) × (to (go_to p h) ≤ h.total))
unfolding page go_to from to
page-go_to p h hs ht =
    let q = min (max p 1) (page_count h) - 1 in
    let below = starts_below q h.page_size h.total hs ht (omega arith) in
    (ap (λ k. k + 1) (mul-div_left q hs) ∙ omega arith, (ground arith, omega arith))

from-go_to :
    (p : ℕ) (h : History)
    → 0 < h.total
    → 0 < p
    → p ≤ page_count h
    → from (go_to p h) ≡ (p - 1) * h.page_size + 1
unfolding from go_to
from-go_to p h ht hp hc =
    ground (arith, ap (λ q. (q - 1) * h.page_size + 1) (clamped p (page_count h) hp hc))

to-go_to :
    (p : ℕ) (h : History)
    → 0 < p
    → p ≤ page_count h
    → to (go_to p h) ≡ min ((p - 1) * h.page_size + h.page_size) h.total
unfolding to go_to
to-go_to p h hp hc =
    ap (λ q. min ((q - 1) * h.page_size + h.page_size) h.total) (clamped p (page_count h) hp hc)

same_start : (p k s : ℕ) → p ≡ k + 1 → (p - 1) * s ≡ k * s
same_start p k s e = ap (λ q. q * s) (omega arith)

-- Each event is on one page, if a page holds any: the page that shows the `n`-th of them exists,
-- and among the pages there are it is the only one that does.
pub shows-page :
    (n p : ℕ) (h : History)
    → 0 < h.page_size
    → 0 < n
    → n ≤ h.total
    → 0 < p
    → p ≤ page_count h
    → ((n - 1) / h.page_size + 1 ≤ page_count h)
      × (((from (go_to p h) ≤ n) × (n ≤ to (go_to p h))) ↔ (p ≡ (n - 1) / h.page_size + 1))
unfolding page_count
shows-page n p h hs hn ht hp hc =
    let f = from-go_to p h (omega arith) hp hc in
    let t = to-go_to p h hp hc in
    let l = div-mul-le_self (n - 1) h.page_size in
    let u = lt-div-mul-add {a = n - 1} hs in
    (
      exists_page (n - 1) h.page_size h.total hs (omega arith),
      (
        λ (a, b).
            (let e = page_of (p - 1) (n - 1) h.page_size (omega arith) (omega arith) in
              omega arith),
        λ e.
            (let g = same_start p ((n - 1) / h.page_size) h.page_size e in
              (omega arith, omega arith)),
      ),
    )
