-- ===== src/Request/Create/References.antt =====
-- What a refused request does to the reference ids in the cache DB.
use ndidplatform_api.Base.{
  ℕ, String, ◌≡◌, refl, false, Option, none, List, nat_eq, string_eq, pair_eq, get, includes,
  get-delete_self,
}
use ndidplatform_api.Base.Checked.{refused, passed}
use ndidplatform_api.Request.Destinations.{unsupported_mode}
use ndidplatform_api.Request.Create.{
  Platform, Params, Cache, check_request, requesting_node, create_request, on_refusal,
  create_request_clean_up_on_error, saved, create_for,
}

module _ (c : Platform) (p : Params) (given : Option String) (created salt : String) (cache : Cache)
    (node : String) (by : requesting_node c p ≡ passed node) where
  -- A request in a mode that is not allowed is refused for that, and its reference id is given up,
  -- also where it is that of another request, which goes on.
  pub unsupported_mode-frees_reference :
      (modes : List ℕ)
      → c.get_allowed_mode_list ≡ passed modes
      → includes p.mode modes ≡ false
      → ((create_request c p given created salt cache).0 ≡ refused unsupported_mode)
        × (get (node, p.reference_id) (create_request c p given created salt cache).1.references
            ≡ none)
  unfolding create_request create_for saved check_request on_refusal
      create_request_clean_up_on_error
  unsupported_mode-frees_reference modes ask banned =
      rw (by, ask, banned) (refl, get-delete_self (node, p.reference_id) cache.references)
