-- ===== src/Create/Protocols.antt =====
-- createVolumeByProtocol (pkg/driver/controller.go).
use tns_csi.Common.{Str, str_eq, Result, err, if◌then◌else◌}
use tns_csi.Codes.{Code, invalid_argument}
use tns_csi.Properties.{protocol_nfs, protocol_nvmeof, protocol_iscsi, protocol_smb}
use tns_csi.Backend.{Backend, M, pure}
use tns_csi.Create.Request.{CreateVolumeRequest, Setup, CreatedVolume}
use tns_csi.Create.Nfs.{create_nfs_volume}
use tns_csi.Create.Smb.{create_smb_volume}
use tns_csi.Create.Iscsi.{create_iscsi_volume}
use tns_csi.Create.Nvmeof.{create_nvmeof_volume}

module _ {B : Backend} (env : Setup) where
  unfoldable pub create_volume_by_protocol :
      CreateVolumeRequest → Str → M B (Result Code CreatedVolume)
  create_volume_by_protocol req protocol =
      if str_eq protocol protocol_nfs
      then create_nfs_volume env req
      else if str_eq protocol protocol_nvmeof
      then create_nvmeof_volume env req
      else if str_eq protocol protocol_iscsi
      then create_iscsi_volume env req
      else if str_eq protocol protocol_smb
      then create_smb_volume env req
      else pure (err invalid_argument)
