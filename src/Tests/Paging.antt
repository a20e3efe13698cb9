-- ===== src/Tests/Paging.antt =====
-- The theorems on the page index at concrete inputs.
use distill_portal.Prelude.{◌+◌, ◌*◌, ◌≤◌, ◌<◌, true, false, ◌≡◌, refl, arith}
use distill_portal.Sessions.Pagination.{fifty, hundred, page_count}
use distill_portal.Sessions.Paging.{PageState, settle, commit}
use distill_portal.Sessions.Paging.Laws.{settle-stable, change_page_size_lem}

-- The last page of 300 rows; then a hundred rows per page.
abbrev last_page : PageState
last_page = record { page_index = 5; prev_page_size = fifty }

-- Row 250 was the first on the screen, and is on page 2 of the new size.
settle-last_page :
    settle 300 hundred false last_page ≡ record { page_index = 1; prev_page_size = hundred }
unfolding settle
settle-last_page = refl

-- From the rows 50 to 99 to a hundred per page and back: the rows 0 to 49.
settle-there_and_back :
    settle 300 fifty false (settle 300 hundred false (record last_page { page_index = 1 }))
    ≡ record { page_index = 0; prev_page_size = fifty }
unfolding settle
settle-there_and_back = refl

settle-stable_example :
    ((settle 300 hundred true last_page).page_index < 3)
    × (commit 300 hundred false (settle 300 hundred true last_page)
        ≡ settle 300 hundred true last_page)
unfolding page_count
settle-stable_example = settle-stable 300 hundred true last_page

change_page_size_lem_example :
    ((settle 300 hundred false last_page).prev_page_size ≡ hundred)
    × ((settle 300 hundred false last_page).page_index * 100 ≤ 100)
    × (100 < (settle 300 hundred false last_page).page_index * 100 + 100)
unfolding page_count
change_page_size_lem_example =
    change_page_size_lem 300 hundred last_page (omega arith) (λ e. omega arith)
