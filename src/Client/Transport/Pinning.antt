-- ===== src/Client/Transport/Pinning.antt =====
-- internal/client/transport/client.go, the pinning of a certificate. The check of the chain itself is
-- switched off, so that this is all that is asked of the server's certificates. `fingerprint` is
-- the text of the SHA-256 of a certificate, as hexadecimal digits.
use voldepass.Prelude.{
  String, ◌≡◌, refl, ap, ◌↔◌, ◌++◌, List, [], ◌∷◌, ◌==◌, eq_iff, Bool-cases, inl, inr,
  if◌then◌else◌, arith,
}
use voldepass.Domain.{Bytes, Result, ok, err, internal}

module _ (fingerprint : Bytes → String) (hex_fingerprint : String) where
  -- VerifyPeerCertificate of pinnedTransport, on the certificates that the server presents, its own first.
  unfoldable pub verify_peer_certificate : List Bytes → Result (Unit {0})
  verify_peer_certificate [] = err internal
  verify_peer_certificate (raw ∷ raw_certs) =
      let rest = verify_peer_certificate raw_certs in
      if fingerprint raw == hex_fingerprint then ok tt else rest

  -- The pinned certificate stands in a chain, whatever stands before and after it.
  abbrev pub Presents : List Bytes → Type 0
  Presents chain =
      (before : List Bytes) × (raw : Bytes) × (after : List Bytes) × (chain ≡ before ++ raw ∷ after)
      × (fingerprint raw ≡ hex_fingerprint)

  verify_peer_certificate-append :
      (before : List Bytes) (raw : Bytes) (after : List Bytes)
      → fingerprint raw ≡ hex_fingerprint
      → verify_peer_certificate (before ++ raw ∷ after) ≡ ok tt
  unfolding verify_peer_certificate
  verify_peer_certificate-append [] raw after h =
      ground (arith, eq_iff (fingerprint raw) hex_fingerprint)
  verify_peer_certificate-append (other ∷ before) raw after h =
      ground (arith, verify_peer_certificate-append before raw after h)

  verify_peer_certificate-Presents :
      (chain : List Bytes) → verify_peer_certificate chain ≡ ok tt → Presents chain
  unfolding verify_peer_certificate
  verify_peer_certificate-Presents [] h = absurd (ground arith)
  verify_peer_certificate-Presents (raw ∷ chain) h =
      elim (Bool-cases (fingerprint raw == hex_fingerprint)) [
        | inl e ↦ ([], raw, chain, refl, (eq_iff (fingerprint raw) hex_fingerprint).0 e)
        | inr e ↦
            let (before, found, after, split, same) =
              verify_peer_certificate-Presents chain (ground arith) in
            (raw ∷ before, found, after, ap (◌∷◌ raw) split, same)
      ]

  -- A server is trusted exactly if the certificate with the pinned fingerprint is among those that
  -- it presents, in any place: its own certificate, the first one, can be any other.
  pub verify_peer_certificate_iff :
      (chain : List Bytes) → (verify_peer_certificate chain ≡ ok tt) ↔ Presents chain
  verify_peer_certificate_iff chain = (
    verify_peer_certificate-Presents chain,
    λ (before, raw, after, split, same).
        rw split (verify_peer_certificate-append before raw after same),
  )
