-- ===== src/Upgrade.antt =====
-- common/src/upgrade/simple.rs: an upgrade that gives back the socket and the protocol that was
-- negotiated. A future that is ready at once, and cannot fail, stands as its value.
use rust_libp2p_pubsub.Prelude.{List, [], ◌∷◌}

pub record SimpleUpgradeOutput (I S : Type 0) : Type 0 where
  pub socket : S
  pub info : I

pub record SimpleUpgrade (I : Type 0) : Type 0 where
  pub protocol_info : I

module _ {I S : Type 0} where
  abbrev upgrade_inbound : SimpleUpgrade I → S → I → SimpleUpgradeOutput I S
  upgrade_inbound upgrade socket info = record { socket = socket; info = info }

  abbrev upgrade_outbound : SimpleUpgrade I → S → I → SimpleUpgradeOutput I S
  upgrade_outbound upgrade socket info = record { socket = socket; info = info }

module _ {I : Type 0} where
  abbrev new : I → SimpleUpgrade I
  new info = record { protocol_info = info }

  -- `UpgradeInfo::protocol_info`: the one protocol that is offered.
  abbrev protocol_info : SimpleUpgrade I → List I
  protocol_info upgrade = upgrade.protocol_info ∷ []
