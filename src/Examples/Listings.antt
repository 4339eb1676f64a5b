-- ===== src/Examples/Listings.antt =====
-- Listings of a storage.
use my_sync.Common.{zero, suc, ◌≡◌, refl, true, false, none, some, [], ◌∷◌, ◌++◌}
use my_sync.Common.Int.{negsuc}
use my_sync.Common.Key.{key_lt, Key-discrete}
use my_sync.Object.{base, key, is_dir, with_size, mark_delete_dst}
use my_sync.Filter.{Stream}
use my_sync.Filter.Laws.{objects, Rising}
use my_sync.Produce.Effects.{State}
use my_sync.Produce.{finished, produce}
use my_sync.Listing.{
  Page, ListAnswers, not_supported, gives, walk, ask, list_pages, list_all, list_common_prefix,
}
use my_sync.Listing.Order.{OrderedStream, list_all-OrderedStream}
use my_sync.Listing.Failure.{ungated, list_common_prefix-failure_deletes}
use my_sync.Examples.{key_b, object_a, object_b, env_delete, start_state}

abbrev page_a : Page
page_a = record { objs = object_a ∷ []; has_more = true }

-- The second page starts with the marker again, and is delivered at the second call.
abbrev page_ab : Page
page_ab = record { objs = object_a ∷ object_b ∷ []; has_more = false }

abbrev two_pages : ListAnswers
two_pages = record {
  start_object = none;
  all = not_supported;
  first = gives page_a;
  calls = (λ i. elim i [ zero ↦ none | suc n ↦ some page_ab ]) ∷ [];
  delimited = none;
}

abbrev stream_ab : Stream
stream_ab = some object_a ∷ some object_b ∷ []

list_all-OrderedStream_example :
    OrderedStream key_b none stream_ab × Rising none (objects stream_ab)
unfolding list_all list_pages walk ask base key key_lt Key-discrete
list_all-OrderedStream_example =
    list_all-OrderedStream [] [] key_b two_pages page_a stream_ab refl refl refl

list_common_prefix-failure_deletes_example :
    (st' : State) × (produce env_delete
        (ungated (list_common_prefix [] (none ∷ [])).0)
        (some object_b ∷ [])
        (start_state (negsuc 0))
      ≡ finished st')
    × (st'.tasks ≡ [] ++ (with_size object_b mark_delete_dst ∷ []))
unfolding is_dir base
list_common_prefix-failure_deletes_example =
    list_common_prefix-failure_deletes env_delete [] [] object_b 0 (start_state (negsuc 0)) refl
      refl refl refl
