-- ===== src/Rabbit/Client/Laws.antt =====
-- connect of rabbit-client-python/src/hs_rabbit_client/client.py when one of the two handshakes fails.
use rabbit_speed_test.Base.{ℕ, ◌≡◌, List, [], ◌∷◌, ◌++◌, arith, append_assoc}
use rabbit_speed_test.Rabbit.Client.{
  Client, Request, dial_pub, dial_con, hang_up, Reply, accepted, refused, broken, connect,
  connected, close_survivor,
}

-- The connections that the two handshakes made, as far as they did.
abbrev pub made : Reply → List Request
made (accepted n) = hang_up n ∷ []
made (refused e) = []

-- The handshake that fails first in the order of the two.
abbrev pub FirstFailure : Reply → Reply → ℕ → Type 0
FirstFailure (refused e) k x = e ≡ x
FirstFailure (accepted n) (refused e) x = e ≡ x
FirstFailure (accepted n) (accepted m) x = ⊥

connected_failure :
    (reply : List Request → Request → Reply) (c : Client) (x : ℕ) (p k : Reply)
    → FirstFailure p k x
    → connected reply p k (record c { requests = c.requests ++ dial_pub ∷ dial_con ∷ [] })
      ≡ (broken x, record c { requests = c.requests ++ dial_pub ∷ dial_con ∷ (made p ++ made k) })
unfolding connected close_survivor
connected_failure reply c x (refused e) (refused d) f = ground (arith, f)
connected_failure reply c x (refused e) (accepted n) f =
    ground (arith, f, append_assoc c.requests (dial_pub ∷ dial_con ∷ []) (hang_up n ∷ []))
connected_failure reply c x (accepted n) (refused e) f =
    ground (arith, f, append_assoc c.requests (dial_pub ∷ dial_con ∷ []) (hang_up n ∷ []))
connected_failure reply c x (accepted n) (accepted m) f = absurd f

-- A connect of which a handshake fails raises the first failure and leaves nothing behind: it closes
-- the connection that the other one made, and but for these requests the client is as before.
connect-FirstFailure :
    (reply : List Request → Request → Reply) (c : Client) (x : ℕ)
    → let p = reply c.requests dial_pub in
      let k = reply (c.requests ++ dial_pub ∷ []) dial_con in
      FirstFailure p k x
      → connect reply c
        ≡ (broken x, record c { requests = c.requests ++ dial_pub ∷ dial_con ∷ (made p ++ made k) })
unfolding connect
connect-FirstFailure reply c x f =
    connected_failure reply c x (reply c.requests dial_pub)
      (reply (c.requests ++ dial_pub ∷ []) dial_con) f
