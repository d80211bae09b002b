-- ===== src/Session/Messages/Keeps.antt =====
-- A predicate that no cache of a peer enters is kept by the handshake messages, accepted or not.
use access.Common.{List, String, Bytes}
use access.Common.Int.{ℤ}
use access.Common.Exec.Keeps.{Keeps, Keeps-bind, Keeps-gets, Keeps-pure}
use access.Platform.{Platform}
use access.Session.Engine.{AccessEngine}
use access.Session.Engine.Frame.{
  IsLoose, Keeps-random_nonce, Keeps-on_station_replay, Keeps-on_chaser_replay,
}
use access.Session.Messages.{send_request, send_offer, send_proof}

module _ {p : Platform} (P : AccessEngine p → Type 0) (loose : IsLoose P) where
  pub Keeps-send_request : (now_s : ℤ) → Keeps P (send_request p now_s)
  unfolding send_request
  Keeps-send_request now_s =
      Keeps-bind _ _ (Keeps-gets _) λ self.
        Keeps-bind _ _ (Keeps-random_nonce P loose) λ nonce. Keeps-on_station_replay P loose _

  pub Keeps-send_offer : (session_id : String) (now_s : ℤ) → Keeps P (send_offer p session_id now_s)
  unfolding send_offer
  Keeps-send_offer session_id now_s = Keeps-bind _ _ (Keeps-gets _) λ self.
      Keeps-bind _ _ (Keeps-random_nonce P loose) λ challenge.
        Keeps-bind _ _ (Keeps-random_nonce P loose)
          λ nonce. Keeps-bind _ _ (Keeps-on_chaser_replay P loose _) λ offer. Keeps-pure _

  pub Keeps-send_proof :
      (session_id : String) (challenge : Bytes) (credentials : List Bytes) (now_s : ℤ)
      → Keeps P (send_proof p session_id challenge credentials now_s)
  unfolding send_proof
  Keeps-send_proof session_id challenge credentials now_s =
      Keeps-bind _ _ (Keeps-gets _) λ self.
        Keeps-bind _ _ (Keeps-random_nonce P loose) λ nonce. Keeps-on_station_replay P loose _
