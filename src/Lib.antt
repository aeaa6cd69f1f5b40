-- ===== src/Lib.antt =====
-- Verification of the controller of tns-csi, a CSI driver that serves volumes from a TrueNAS
-- server over NFS, SMB, iSCSI and NVMe-oF.
--
-- The program. A gRPC request comes to the controller service (pkg/driver/controller.go), which
-- finds the volume by the ZFS user properties of its dataset (pkg/tnsapi/properties.go) and hands it
-- to the code of its protocol (pkg/driver/controller_nfs.go, _smb, _iscsi, _nvmeof). That code calls
-- the server through ClientInterface (pkg/tnsapi/interface.go), looks at errors through the
-- classifiers of pkg/tnsapi/errors.go, and repeats deletions with pkg/retry/retry.go.
--
-- The files.
--   Common       lists, Go strings as byte lists, maps as association lists, strconv
--   Codes        the gRPC codes
--   Errors       pkg/tnsapi/errors.go; Errors.Laws: classification and wrapping
--   Retry        pkg/retry/retry.go, WithRetry as a loop over the attempts that are left
--                (Predicates: which errors are retried; Attempts, Outcome, Deletion: theorems)
--   Properties   the constants and conversions of pkg/tnsapi/properties.go;
--                Properties.Builders: the property maps of new volumes
--   Backend      ClientInterface as far as the creation and the deletion of volumes and snapshots
--                use it: a call is a value of the type Call,
--                the server a parameter that answers each call with any reply; a handler of the
--                controller is a function on a state that keeps the log of all calls and replies
--                (Keeps, Guarded, Ends, Settles: rules for what holds of a handler's log and
--                result; Ledger reads off a log the created objects whose deletion was not asked for)
--   Volume       the lookup of a volume in pkg/driver/controller.go; Volume.Context is
--                buildVolumeContext and getProtocolFromVolumeContext, with the readers of the node
--                in Volume.Context.Node (validateISCSIParams of pkg/driver/node_iscsi.go and
--                validateNVMeOFParams of node_nvmeof.go), Volume.Adoption is IsVolumeAdoptable, Volume.Request the checks on the request of CreateVolume and
--                resolveParentDataset
--   Delete       DeleteVolume: Ownership is pkg/driver/volume_delete.go; Datasets is the guard on
--                snapshots and the deletion of a dataset; Files, Iscsi, Nvmeof are
--                deleteNFSVolume and deleteSMBVolume, deleteISCSIVolume, deleteNVMeOFVolume;
--                Volumes is DeleteVolume. Grounds says what each call needs, Evidence and
--                Authorized prove that it has it, Success what a success means, Shares what
--                happens to the share of an SMB volume
--   Create       createVolumeByProtocol (Protocols): Settings is the reading of ZFS properties and
--                of the encryption, Request what the validation of every protocol shares and the
--                recording of properties, Access pkg/driver/controller_nfs_access.go (its Order:
--                the comparison of entries), Comment the comment of a share, Files the dataset of
--                NFS and SMB; Nfs, Smb, Iscsi and Nvmeof are the handlers of
--                pkg/driver/controller_nfs.go, _smb, _iscsi and _nvmeof. Settled proves what they
--                leave behind. Volumes is CreateVolume, with the adoption of volumes in Adopt;
--                Careful proves that it deletes nothing of others. InFlight is its guard against
--                overlapping calls, as a state machine
--   Expand       ControllerExpandVolume with the handlers of the protocols
--   Publish      pkg/driver/node_registry.go, ControllerPublishVolume and
--                ControllerUnpublishVolume; Publish.Attached has the runs of these operations
--   Listing      ListVolumes; Listing.Pages has the client that follows its tokens
--   Snapshot.Id  the snapshot IDs of pkg/driver/controller_snapshot.go
--   Snapshot.Creation  createRegularSnapshot; Marked and the deletion guard of Delete.Datasets, Made
--                what a success means
--   Snapshot.Deletion  DeleteSnapshot, with deleteDetachedSnapshot of
--                pkg/driver/controller_snapshot_detached.go; Authorized says what each call needs
--                and proves that it has it, Success what a success means
--   Naming       pkg/driver/template.go, with text/template as a parameter; Naming.Collapse is
--                its loop as rounds, Naming.Sanitized and Naming.Resolved: what names come out of it
--   Tests        the theorems at concrete inputs
--
-- Bounds and fuel. Numbers are natural numbers and integers; the 64-bit range is a hypothesis where
-- strconv depends on it. The retry loop is recursion on the attempts left after the first, of which
-- the configuration gives the number. The decimal digits are made with fuel 20, enough below 2^64.
-- The loop that collapses hyphens in a name has the length of the name as fuel, since each round
-- shortens the name.
--
-- Left out: logging, metrics, the texts of gRPC errors (a handler returns the code), the deadlines
-- of contexts other than those the retry loop reads, the transport to the server, the rest
-- of the node service, the search of CreateSnapshot for its dataset, detached snapshots, and the creation of
-- volumes from snapshots and volumes. The clock is a call that the server answers; the three seconds
-- that createNVMeOFVolume waits for a new namespace are left out. text/template and net/netip are
-- parameters. strings.TrimSpace is modelled on ASCII spaces, strings.ToLower on ASCII letters. An
-- answer of the server is any value of its type; nothing is assumed of the server.
pub mod Common
pub mod Codes
pub mod Errors
pub mod Retry
pub mod Properties
pub mod Backend
pub mod Volume
pub mod Delete
pub mod Create
pub mod Expand
pub mod Snapshot
pub mod Publish
pub mod Listing
pub mod Naming
pub mod Tests
