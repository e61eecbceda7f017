-- ===== src/Journal/Memory/Creation.antt =====
-- What a call of `create_v2` that returned has gone through.
use things3_orchestrator.Prelude.{ok, >>=-eq-ok, raise_if, raise_if-ok, ◌≡◌, true, not, Option}
use things3_orchestrator.Journal.Types.{
  V2Operation, Moment, Journal, bad_manifest, not_pending, Digests,
}
use things3_orchestrator.Journal.Checks.{is_pending, v2_manifest_is_valid}
use things3_orchestrator.Journal.Memory.{CreateResult, get_v2_request, create_after, create_v2}

-- What a call of `create_v2` that returned has gone through.
pub record Made (digests : Digests) (operation : V2Operation) (now : Moment) (j : Journal)
    (out : CreateResult × Journal) : Type 0 where
  pub found : Option V2Operation
  pub starts_pending : is_pending operation.state ≡ true
  pub manifest_fits : v2_manifest_is_valid digests operation ≡ true
  pub found_is :
      get_v2_request digests operation.account_id operation.api_version operation.request_id j
      ≡ ok found
  pub result_is : create_after digests operation now found j ≡ out

module _ (digests : Digests) where
  pub create-Made :
      (operation : V2Operation) (now : Moment) (j : Journal) {out : CreateResult × Journal}
      → create_v2 digests operation now j ≡ ok out
      → Made digests operation now j out
  unfolding create_v2
  create-Made operation now j h =
      let (_, valid, h1) =
        >>=-eq-ok (raise_if (not (v2_manifest_is_valid digests operation)) bad_manifest) _ h in
      let (_, starts, h2) =
        >>=-eq-ok (raise_if (not (is_pending operation.state)) not_pending) _ h1 in
      let (found, found_is, h3) =
        >>=-eq-ok
          (get_v2_request digests operation.account_id operation.api_version operation.request_id j)
          _ h2 in
      record {
        found = found;
        starts_pending = raise_if-ok _ _ starts;
        manifest_fits = raise_if-ok _ _ valid;
        found_is = found_is;
        result_is = cc h3;
      }
