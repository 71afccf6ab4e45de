-- ===== src/Identity/Answers.antt =====
-- What `authenticate` accepts, and the epochs that `next_epoch` gives.
use sentry_mode.Prelude.{
  String, ◌≡◌, ◌↔◌, refl, inl, inr, false, Option, none, some, arith, string_eq, option_eq, nat_eq,
  Option-cases, eq_iff,
}
use sentry_mode.Prelude.Dict.{lookup}
use sentry_mode.Node.{NodeDocument, NodeRecord, status_eq, approved, Result, ok, err}
use sentry_mode.Identity.{
  Memory, File, Credentials, is_other, refresh, require, vetted, asked, authenticate,
}

-- A name or certificate that is given is this one.
abbrev pub Agrees : Option String → String → Type 0
Agrees given s = (a : String) → given ≡ some a → a ≡ s

-- The record by which `authenticate` accepts.
pub record Vouches (d : NodeDocument) (node_id : String) (c : Credentials) (r : NodeRecord)
    : Type 0 where
  pub filed : lookup node_id d.nodes ≡ some r
  pub approves : r.status ≡ approved
  pub username : Agrees c.username node_id
  pub client_id : Agrees c.client_id node_id
  pub pinned : (p : String) × (r.fingerprint ≡ some p) × Agrees c.certificate_fingerprint p

is_other-Agrees : (o : Option String) (s : String) → (is_other o s ≡ false) ↔ Agrees o s
is_other-Agrees none s = (λ h a e. absurd (ground (arith, e)), λ h. refl)
is_other-Agrees (some b) s =
    (λ h a e. ground (arith, h, e, eq_iff b s), λ h. ground (arith, h b refl, eq_iff b s))

vetted-ok :
    (node_id : String) (c : Credentials) (d : NodeDocument) (r x : NodeRecord)
    → lookup node_id d.nodes ≡ some r
    → vetted node_id c r ≡ ok x
    → (x ≡ r) × Vouches d node_id c r
unfolding vetted
vetted-ok node_id c d r x there h = elim (Option-cases r.fingerprint) [
  | inl bare ↦ absurd (ground (arith, h, bare))
  | inr (p, pinned) ↦ (
    ground (arith, h, pinned),
    record {
      filed = there;
      approves = (status_eq.agrees r.status approved).0 (ground (arith, h, pinned));
      username = (is_other-Agrees c.username node_id).0 (ground (arith, h, pinned));
      client_id = (is_other-Agrees c.client_id node_id).0 (ground (arith, h, pinned));
      pinned =
          (p, pinned, (is_other-Agrees c.certificate_fingerprint p).0 (ground (arith, h, pinned)));
    },
  )
]

Vouches-vetted :
    (d : NodeDocument) (node_id : String) (c : Credentials) (r : NodeRecord)
    → Vouches d node_id c r
    → vetted node_id c r ≡ ok r
unfolding vetted
Vouches-vetted d node_id c r v =
    let (p, pinned, same) = v.pinned in
    let a = (status_eq.agrees r.status approved).1 v.approves in
    let u = (is_other-Agrees c.username node_id).1 v.username in
    let i = (is_other-Agrees c.client_id node_id).1 v.client_id in
    let s = (is_other-Agrees c.certificate_fingerprint p).1 same in
    ground (arith, a, u, i, s, pinned)

asked-ok :
    (m : Memory) (read : Result NodeDocument) (node_id : String) (c : Credentials) (r : NodeRecord)
    → (asked (m, read) node_id c ≡ ok r)
      ↔ (((x : NodeDocument) × (read ≡ ok x)) × Vouches m.document node_id c r)
unfolding asked require
asked-ok m (err e) node_id c r =
    (λ h. absurd (ground (arith, h)), λ h. absurd (ground (arith, h.0.1)))
asked-ok m (ok d) node_id c r = elim (Option-cases (lookup node_id m.document.nodes)) [
  | inl missing ↦ (
    λ h. absurd (ground (arith, rw (missing, asked, require) at h)),
    λ h. absurd (ground (arith, h.1.filed, missing)),
  )
  | inr (s, there) ↦ (
    λ h.
        let (same, v) =
          vetted-ok node_id c m.document s r there (rw (there, asked, require) at h) in
        ((d, refl), rw same v),
    λ h. rw (h.1.filed, asked, require) (Vouches-vetted m.document node_id c r h.1),
  )
]

-- `authenticate` accepts a connection, by a record, exactly when the file could be read and the document
-- then in memory vouches: the record is filed under the node's name and approved, it has a fingerprint,
-- and the username, the client identifier and the certificate that were given are the node's name,
-- twice, and that fingerprint.
pub authenticate-Vouches :
    (m : Memory) (f : File) (node_id : String) (c : Credentials) (r : NodeRecord)
    → ((authenticate m f node_id c).result ≡ ok r) ↔ (
        ((x : NodeDocument) × ((refresh m f).1 ≡ ok x))
        × Vouches (refresh m f).0.document node_id c r)
unfolding authenticate
authenticate-Vouches m f node_id c r = asked-ok (refresh m f).0 (refresh m f).1 node_id c r
