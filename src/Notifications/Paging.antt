-- ===== src/Notifications/Paging.antt =====
-- `NotificationList`: the notifications are displayed page by page as one scrolls.
mod Tests
use ntfy.Base.{
  ℕ, zero, suc, ◌+◌, ◌*◌, ◌/◌, ◌≤◌, ◌<◌, ◌≡◌, refl, ap, ◌∙◌, Bool, true, false, List, length, take,
  take_all, min, ltb, if◌then◌else◌, arith,
}
use ntfy.Model.{Notification}

abbrev pub page_size : ℕ
page_size = 20

-- `maxCount` at first, and after `next` of the scroller was called so many times.
abbrev pub max_count : ℕ → ℕ
max_count zero = page_size
max_count (suc loads) = max_count loads + page_size

abbrev pub smaller : ℕ → ℕ → ℕ
smaller a b = if ltb b a then b else a

unfoldable pub count : List Notification → ℕ → ℕ
count notifications loads = smaller (length notifications) (max_count loads)

unfoldable pub displayed : List Notification → ℕ → List Notification
unfolding count
displayed notifications loads = take (count notifications loads) notifications

unfoldable pub has_more : List Notification → ℕ → Bool
unfolding count
has_more notifications loads = ltb (count notifications loads) (length notifications)

max_count_lem : (loads : ℕ) → max_count loads ≡ loads * 20 + 20
max_count_lem zero = omega arith
max_count_lem (suc loads) = omega (arith, max_count_lem loads)

-- While there is more, the next page shows more than was shown.
pub count_grows :
    (notifications : List Notification) (loads : ℕ)
    → has_more notifications loads ≡ true
    → count notifications loads < count notifications (suc loads)
unfolding count has_more
count_grows notifications loads h = ground arith

-- Scrolling ends: after a page for each twenty notifications, all are displayed in their order, and
-- there is no more.
pub displayed_all :
    (notifications : List Notification) (loads : ℕ)
    → length notifications / page_size ≤ loads
    → (displayed notifications loads ≡ notifications) × (has_more notifications loads ≡ false)
unfolding displayed has_more count
displayed_all notifications loads h =
    let enough : length notifications ≤ max_count loads = omega (arith, max_count_lem loads) in
    let whole : smaller (length notifications) (max_count loads) ≡ length notifications =
      ground arith in
    (
      ap (λ n. take n notifications) whole
          ∙ take_all (length notifications) notifications (omega arith),
      ground arith,
    )
