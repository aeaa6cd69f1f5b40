-- ===== src/Create/Settled/Volumes.antt =====
-- What createVolumeByProtocol (pkg/driver/controller.go) leaves behind.
use tns_csi.Common.{Str, some, [], ◌≡◌, refl, ap}
use tns_csi.Backend.{Backend, Driver}
use tns_csi.Backend.Ledger.{ledger}
use tns_csi.Backend.Settles.{Settled, Settles, Settles-pure, Settles-if}
use tns_csi.Create.Request.{CreateVolumeRequest, Setup}
use tns_csi.Create.Protocols.{create_volume_by_protocol}
use tns_csi.Create.Settled.Files.{create_nfs_volume-Settles, create_smb_volume-Settles}
use tns_csi.Create.Settled.Iscsi.{create_iscsi_volume-Settles}
use tns_csi.Create.Settled.Nvmeof.{create_nvmeof_volume-Settles}

module _ {B : Backend} (env : Setup) (req : CreateVolumeRequest) (protocol : Str) where
  pub create_volume_by_protocol-Settles :
      Settles {B = B} (some []) (create_volume_by_protocol env req protocol)
  unfolding create_volume_by_protocol
  create_volume_by_protocol-Settles = Settles-if _ _ _ (create_nfs_volume-Settles env req) (
      Settles-if _ _ _ (create_nvmeof_volume-Settles env req) (
        Settles-if _ _ _ (create_iscsi_volume-Settles env req)
          (Settles-if _ _ _ (create_smb_volume-Settles env req) (Settles-pure _ refl))))

  -- Started with an empty log, createVolumeByProtocol settles the ledger of its calls, for every
  -- request, protocol and server. If it fails, then the server was asked to delete each object that it
  -- has created for the run, the last one first, and to delete nothing else; whether it did so is not
  -- said. If it succeeds, then every deletion asked for was one of the last object created and not yet
  -- asked to be deleted. Objects and requests with a zero or empty ID do not count.
  pub create_volume_by_protocol-Settled :
      (s : Driver B)
      → s.log ≡ []
      → Settled
          (create_volume_by_protocol env req protocol s).0
          (ledger (create_volume_by_protocol env req protocol s).1.log)
  unfolding ledger
  create_volume_by_protocol-Settled s fresh =
      create_volume_by_protocol-Settles.at s (ap ledger fresh)
