-- ===== src/Volume/Context/Node.antt =====
-- pkg/driver/node_iscsi.go and node_nvmeof.go: validateISCSIParams and validateNVMeOFParams, which
-- read the parameters of a connection from the volume context. Logging is left out.
use tns_csi.Common.{ℕ, Str, str, is_empty, Map, get, ◌||◌, Result, ok, err, if◌then◌else◌}
use tns_csi.Codes.{Code, invalid_argument}
use tns_csi.Volume.Context.{key_server, key_nqn, key_iscsi_iqn}

abbrev pub key_port : Str
key_port = str "port"

abbrev pub key_transport : Str
key_transport = str "transport"

abbrev pub key_nr_io_queues : Str
key_nr_io_queues = str "nvmeof.nr-io-queues"

abbrev pub key_queue_size : Str
key_queue_size = str "nvmeof.queue-size"

-- iscsiConnectionParams, without the addresses that the stage resolves later
pub record IscsiConnectionParams : Type 0 where
  pub iqn : Str
  pub server : Str
  pub port : Str
  pub lun : ℕ

-- nvmeOFConnectionParams
pub record NvmeofConnectionParams : Type 0 where
  pub nqn : Str
  pub server : Str
  pub transport : Str
  pub port : Str
  pub nr_io_queues : Str
  pub queue_size : Str

-- `if v == "" { v = d }`
abbrev text_or : Str → Str → Str
text_or v d = if is_empty v then d else v

unfoldable pub node_validate_iscsi_params : Map Str → Result Code IscsiConnectionParams
node_validate_iscsi_params volume_context =
    if is_empty (get key_iscsi_iqn volume_context) || is_empty (get key_server volume_context)
    then err invalid_argument
    else ok (record {
      iqn = get key_iscsi_iqn volume_context;
      server = get key_server volume_context;
      port = text_or (get key_port volume_context) (str "3260");
      lun = 0;
    })

unfoldable pub node_validate_nvmeof_params : Map Str → Result Code NvmeofConnectionParams
node_validate_nvmeof_params volume_context =
    if is_empty (get key_nqn volume_context) || is_empty (get key_server volume_context)
    then err invalid_argument
    else ok (record {
      nqn = get key_nqn volume_context;
      server = get key_server volume_context;
      transport = text_or (get key_transport volume_context) (str "tcp");
      port = text_or (get key_port volume_context) (str "4420");
      nr_io_queues = get key_nr_io_queues volume_context;
      queue_size = get key_queue_size volume_context;
    })
