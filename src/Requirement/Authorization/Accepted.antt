-- ===== src/Requirement/Authorization/Accepted.antt =====
-- What an authorization that is accepted says.
use eoduksini.Requirement.Check.{get, tenant_mismatch, project_mismatch, graph_digest_mismatch}
use eoduksini.Base.Result.{ok, >>=-eq-ok, check}
use eoduksini.Requirement.Authorization.{
  assert_requirement_graph_authorization_integrity, is_over, Verification, Authorization,
  assert_authorization_record_integrity,
}
use eoduksini.Requirement.Stamp.{Clock, normalize_timestamp, before, at_or_after}
use eoduksini.Requirement.Record.{is_text, assert_requirement_graph_integrity}
use eoduksini.Requirement.Canonical.{Engine}
use eoduksini.Base.{String, true, false, Option, none, some, ◌≡◌, arith, eq_iff}
use eoduksini.Base.Json.{Value, str, bool, num, arr, obj, null}

is_text-some : (v : Option Value) (t : String) → is_text v t ≡ true → v ≡ some (str t)
unfolding is_text
is_text-some (some (str s)) t h = ground (arith, eq_iff s t)
is_text-some none t h = cc
is_text-some (some null) t h = cc
is_text-some (some (bool _)) t h = cc
is_text-some (some (num _)) t h = cc
is_text-some (some (arr _)) t h = cc
is_text-some (some (obj _)) t h = cc

module _ (e : Engine) (c : Clock) where
  -- An authorization is accepted only with its own record intact, for a graph whose record is intact,
  -- of the same tenant, project and graph digest, with a receipt that the caller verified, at a time
  -- that is not before the authorization and not at or after its expiry.
  pub authorization_accepted :
      (authorization graph : Value) (v : Verification)
      → assert_requirement_graph_authorization_integrity e c authorization graph v ≡ ok tt
      → (a : Authorization) × (now : String) × (assert_authorization_record_integrity e c
            authorization
          ≡ ok a)
        × (assert_requirement_graph_integrity e graph none ≡ ok tt)
        × (get "tenantId" graph ≡ some (str a.tenant_id))
        × (get "projectId" graph ≡ some (str a.project_id))
        × (get "requirementGraphDigest" graph ≡ some (str a.requirement_graph_digest))
        × (normalize_timestamp c v.evaluated_at ≡ ok now)
        × (before c now a.authorized_at ≡ false)
        × ((t : String) → a.expires_at ≡ some t → at_or_after c now t ≡ false)
        × (v.verify_authority_receipt a ≡ true)
  unfolding assert_requirement_graph_authorization_integrity is_over
  authorization_accepted authorization graph v h =
      let (a, read, h) = >>=-eq-ok (assert_authorization_record_integrity e c authorization) _ h in
      let (_, intact, h) = >>=-eq-ok (assert_requirement_graph_integrity e graph none) _ h in
      let (_, tenant, h) =
        >>=-eq-ok (check (is_text (get "tenantId" graph) a.tenant_id) tenant_mismatch) _ h in
      let (_, project, h) =
        >>=-eq-ok (check (is_text (get "projectId" graph) a.project_id) project_mismatch) _ h in
      let (_, digest, h) =
        >>=-eq-ok
          (check (is_text (get "requirementGraphDigest" graph) a.requirement_graph_digest)
            graph_digest_mismatch)
          _ h in
      let (now, stamp, h) = >>=-eq-ok (normalize_timestamp c v.evaluated_at) _ h in
      (
        a,
        now,
        read,
        intact,
        is_text-some (get "tenantId" graph) a.tenant_id (ground arith),
        is_text-some (get "projectId" graph) a.project_id (ground arith),
        is_text-some (get "requirementGraphDigest" graph) a.requirement_graph_digest (ground arith),
        stamp,
        ground arith,
        λ t over. ground arith,
        ground arith,
      )
