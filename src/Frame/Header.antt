-- ===== src/Frame/Header.antt =====
-- The header fields of a frame that was built from an APDU (EIBCommNEO/Frame.cpp).
use edifice.Base.{◌≡◌, refl, arith, Bool, some, ret}
use mathlib.Core.Path.{subst}
use edifice.Apdu.Types.{Apdu}
use edifice.Frame.Types.{
  Frame, get_host_addr, get_peer_addr, does_peer_use_group_address, read_addr,
}
use edifice.Frame.Build.{build_frame_from_apdu}
use edifice.Frame.Layout.{
  IsSendable, standard_layout, extended_layout, standard_rest, extended_rest,
}
use edifice.Frame.RoundTrip.{standard_built, extended_built}
use native.Mathlib.Decide.{dec_lt}

-- The addresses of an APDU, read from a frame, whose group bit can be read too.
pub record HasHeader (a : Apdu) (f : Frame) : Type 0 where
  pub host : get_host_addr f ≡ ret (some a.hostaddr)
  pub peer : get_peer_addr f ≡ ret (some a.peeraddr)
  pub group : Bool
  pub group_read : does_peer_use_group_address f ≡ ret group

standard_layout-HasHeader : (a : Apdu) → HasHeader a (standard_layout a)
unfolding get_host_addr get_peer_addr does_peer_use_group_address read_addr standard_layout
    standard_rest
standard_layout-HasHeader a = record { host = refl; peer = refl; group = _; group_read = refl }

extended_layout-HasHeader : (a : Apdu) → HasHeader a (extended_layout a)
unfolding get_host_addr get_peer_addr does_peer_use_group_address read_addr extended_layout
    extended_rest
extended_layout-HasHeader a = record { host = refl; peer = refl; group = _; group_read = refl }

-- The frame that carries an APDU which can be sent has the APDU's addresses.
pub build_frame_from_apdu-HasHeader :
    (a : Apdu) (f : Frame) → IsSendable a → build_frame_from_apdu a ≡ ret f → HasHeader a f
build_frame_from_apdu-HasHeader a f s e = elim (dec_lt a.apdu_len 16) [
  | yes p ↦
      (let built = standard_built a s.sized s.at_least p in
        let same : standard_layout a ≡ f = cc in
        subst (HasHeader a) same (standard_layout-HasHeader a))
  | no p ↦
      (let built = extended_built a s.sized (omega arith) s.at_most in
        let same : extended_layout a ≡ f = cc in
        subst (HasHeader a) same (extended_layout-HasHeader a))
]
