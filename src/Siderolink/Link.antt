-- ===== src/Siderolink/Link.antt =====
-- The link spec of a round, as the link spec controller takes it.
use talemu.Prelude.{
  Text, text_eq, text_eq_refl, true, false, List, [], ◌∷◌, none, some, ◌≡◌, ◌≢◌, refl, ap, ◌∙◌, inl,
  inr, ◌==◌, ◌⊎◌,
}
use talemu.Wireguard.Patch.{is_sorted, all_above}
use talemu.Wireguard.Encode.{IsSound}
use talemu.Links.{LinkMessage, Kernel, Talos, kind_wireguard, find_link, is_up, run_round}
use talemu.Links.Kernels.{IsWorking}
use talemu.Links.Sync.{IsWireguard}
use talemu.Links.Rounds.{run_round-HaveLinks}
use talemu.Siderolink.{ProvisionData, Env}
use talemu.Siderolink.Rounds.{link_spec}

-- The keys and the endpoint are texts that the codec reads as they stand, and sorting leaves a list
-- of one peer.
pub record IsReadable (talos : Talos) (env : Env) (d : ProvisionData) (server ep : Text)
    : Type 0 where
  pub key : talos.codec.parse_key env.private_key ≡ some env.private_key
  pub server_key : talos.codec.parse_key d.server_public_key ≡ some d.server_public_key
  pub endpoint : talos.codec.resolve ep ≡ some ep
  pub sorts :
      talos.sort (link_spec env d server ep).wireguard ≡ (link_spec env d server ep).wireguard

IsWireguard-link_spec :
    (talos : Talos) (env : Env) (d : ProvisionData) (server ep : Text)
    → d.grpc_peer ≡ []
    → IsReadable talos env d server ep
    → IsWireguard talos (link_spec env d server ep)
unfolding is_sorted all_above
IsWireguard-link_spec talos env d server ep g r = record {
  is_logical = ap (λ t. text_eq t []) g ∙ text_eq_refl [];
  is_wireguard = text_eq_refl kind_wireguard;
  encodable = record {
    sorted = rw r.sorts refl;
    canonical =
        rw r.sorts
          (record { key = r.server_key; preshared = inl refl; endpoint = inr r.endpoint }, tt);
    key = rw r.sorts r.key;
  };
}

module _ (k : Kernel) (talos : Talos) (view : k.State → List LinkMessage)
    (works : IsWorking k talos view) (sound : IsSound talos.codec) where
  -- When the link spec controller has run over the link spec of a round without a tunnel, the kernel
  -- has the WireGuard interface of the machine, up and with the MTU of SideroLink, and the other
  -- links stay.  This assumes that no call of the kernel fails, that the comparison of peers is
  -- sound, that the keys and the endpoint can be read as they stand, that sorting leaves a list of
  -- one peer, and that an interface of this name that exists has a kind.
  pub siderolink_comes_up :
      (env : Env) (d : ProvisionData) (server ep : Text) (t : k.State)
      → d.grpc_peer ≡ []
      → IsReadable talos env d server ep
      → ((m : LinkMessage) → find_link env.interface (view t) ≡ some m → m.info ≢ none)
      → let end = run_round k talos (link_spec env d server ep ∷ []) t in
        (end.1 ≡ true)
        × ((m : LinkMessage) × (find_link env.interface (view end.0) ≡ some m)
            × (m.info ≡ some kind_wireguard)
            × (is_up m ≡ true)
            × (((env.link_mtu == 0) ≡ true) ⊎ (m.mtu ≡ env.link_mtu)))
        × ((n : Text)
            → text_eq env.interface n ≡ false
            → find_link n (view end.0) ≡ find_link n (view t))
  siderolink_comes_up env d server ep t g r i =
      let (ok, (has, rest), frame) =
        run_round-HaveLinks k talos view works sound (link_spec env d server ep ∷ []) t (tt, tt)
          (refl, IsWireguard-link_spec talos env d server ep g r, i, tt) in
      (ok, (has.link, has.found, has.same_kind, has.same_up, has.same_mtu), λ n e. frame n (e, tt))
