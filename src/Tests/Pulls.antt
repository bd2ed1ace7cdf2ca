-- ===== src/Tests/Pulls.antt =====
-- Pulls at concrete inputs.
use tatuzin.Prelude.{ℕ, ◌<◌, ◌≤◌, ◌≡◌, ◌⊎◌, refl, inl, true, [], length, All, arith}
use tatuzin.Exec.{ok}
use tatuzin.Sync.Numbering.{IsNumbered}
use tatuzin.Sync.Order.Laws.{Elem, IsSorted}
use tatuzin.Sync.Pull.{
  is_visible, is_listed, is_delivered, has_feature, is_from_device, Query, Page, is_selected,
}
use tatuzin.Sync.Pull.Paging.{pull_covers, pull_sound, pull_progress, pull-limit_zero, reply, next}
use tatuzin.Tests.Setting.{shop, one_sale, sale_row}

abbrev query : ℕ → Query
query n = record { since_version = 0; features = []; limit = n; include_own_events = true }

one_sale-IsNumbered : IsNumbered "shop" one_sale
one_sale-IsNumbered = record {
  bounded = ((λ h. (1, refl, omega arith)), tt);
  apart = (tt, tt);
  ids = (omega arith, tt);
}

pull_covers_example :
    (p : Page) × (reply shop (query 1) one_sale ≡ ok p)
    × (Elem sale_row p.changes
        ⊎ ((p.has_more ≡ true)
            × (is_selected shop (next shop (query 1) one_sale p.next_since_version) [] sale_row
                ≡ true)))
unfolding is_visible is_listed is_delivered has_feature is_from_device
pull_covers_example =
    pull_covers shop (query 1) one_sale sale_row one_sale-IsNumbered (inl refl) refl

pull_sound_example :
    (p : Page) × (reply shop (query 1) one_sale ≡ ok p)
    × (length p.changes ≤ 1)
    × IsSorted p.changes
    × All (λ e. Elem e one_sale.events × (is_selected shop (query 1) [] e ≡ true)) p.changes
pull_sound_example = pull_sound shop (query 1) one_sale

pull_progress_example :
    (p : Page) × (reply shop (query 1) one_sale ≡ ok p)
    × (p.has_more ≡ true → 0 < p.next_since_version)
pull_progress_example = pull_progress shop (query 1) one_sale (omega arith)

pull-limit_zero_example :
    (p : Page) × (reply shop (query 0) one_sale ≡ ok p)
    × (p.has_more ≡ true)
    × (p.next_since_version ≡ 0)
pull-limit_zero_example = pull-limit_zero shop (query 0) one_sale refl
