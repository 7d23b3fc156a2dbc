-- ===== src/Auth/Tests.antt =====
-- Runs of the middleware at concrete inputs.
use tfai_go.Base.{◌≡◌, ◌↔◌, Bytes, codes, trim_space}
use tfai_go.Auth.{pass, auth_middleware}
use tfai_go.Auth.Token.{IsBearer, auth_pass_iff, auth_reachable_iff}

abbrev key : Bytes
key = codes "s3cret "

auth_pass_iff_example :
    (auth_middleware (codes "s3cret") (codes "Bearer s3cret") ≡ pass)
    ↔ IsBearer (codes "Bearer s3cret") (codes "s3cret")
auth_pass_iff_example = auth_pass_iff (codes "s3cret") (codes "Bearer s3cret") (λ h. cc)

auth_reachable_iff_example :
    ((hdr : Bytes) × (auth_middleware key hdr ≡ pass)) ↔ (trim_space key ≡ key)
auth_reachable_iff_example = auth_reachable_iff key (λ h. cc)
