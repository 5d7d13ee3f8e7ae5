-- ===== src/System/Instances.antt =====
-- The devices of the loaders and of the savers keep to one callback (src/HTTPCommon.cpp,
-- src/MNNLoader.cpp, src/SFTPCommon.cpp, src/WSCommon.cpp, src/IPFSSaver.cpp, src/SFTPSaver.cpp,
-- src/MNNSaver.cpp, src/IPFSCommon.cpp).
use async_iomanager.Common.{
  ℕ, ◌+◌, ◌≤◌, Bool, List, [], ◌∷◌, Bytes, length, ◌==◌, if◌then◌else◌, ◌≡◌, arith,
}
use async_iomanager.Io.{Completion, Action, callbacks}
use async_iomanager.System.Interface.{Device, Posting, awaits, posted, posting, either}
use async_iomanager.Http
use async_iomanager.Http.Delivery as HttpDelivery
use async_iomanager.Ws
use async_iomanager.Ws.Delivery as WsDelivery
use async_iomanager.Local
use async_iomanager.Local.Loading as LocalLoading
use async_iomanager.SftpDownload
use async_iomanager.SftpDownload.Delivery as SftpDelivery
use async_iomanager.Local.Writes as LocalWrites
use async_iomanager.SftpSaver
use async_iomanager.SftpSaver.FanIn as FanIn
use async_iomanager.Ipfs
use async_iomanager.Ipfs.Alone as Alone
use async_iomanager.Ipfs.Growth.{step-Grows, new_posts, new_posts-length}
use async_iomanager.IpfsSaver
use async_iomanager.IpfsSaver.Balance as IpfsBalance

pub http_at_most_one : (s : Http.State) → HttpDelivery.due s ≤ 1
http_at_most_one s = ground arith

pub ws_at_most_one : (s : Ws.State) → WsDelivery.due s ≤ 1
ws_at_most_one s = ground arith

pub local_at_most_one : (s : Local.State) → LocalLoading.due s ≤ 1
local_at_most_one s = ground arith

pub sftp_at_most_one : (s : SftpDownload.State) → SftpDelivery.due s ≤ 1
sftp_at_most_one s = ground arith

-- `HTTPDevice`.
abbrev pub http_device : Device Completion
http_device = record {
  Phase = Http.HttpDevice × Http.State;
  Input = Http.Event;
  step = λ s e. ((s.0, (Http.step s.0 s.1 e).0), callbacks (Http.step s.0 s.1 e).1);
  due = λ s. HttpDelivery.due s.1;
  due_at_most_one = λ s. http_at_most_one s.1;
  made_is_due = λ s e. HttpDelivery.step-due s.0 s.1 e;
}

-- `WSDevice`.
abbrev pub ws_device : Device Completion
ws_device = record {
  Phase = Ws.WsDevice × Ws.State;
  Input = Ws.Event;
  step = λ s e. ((s.0, (Ws.step s.0 s.1 e).0), callbacks (Ws.step s.0 s.1 e).1);
  due = λ s. WsDelivery.due s.1;
  due_at_most_one = λ s. ws_at_most_one s.1;
  made_is_due = λ s e. WsDelivery.step-due s.0 s.1 e;
}

-- The read of a local file, with its name and flags.
pub record Reading : Type 0 where
  pub file : Bytes
  pub parse : Bool
  pub save : Bool
  pub state : Local.State

abbrev pub file_device : Device Completion
file_device = record {
  Phase = Reading;
  Input = Local.Event;
  step = λ s e. (
    record s { state = (Local.step s.file s.parse s.save s.state e).0 },
    callbacks (Local.step s.file s.parse s.save s.state e).1,
  );
  due = λ s. LocalLoading.due s.state;
  due_at_most_one = λ s. local_at_most_one s.state;
  made_is_due = λ s e. LocalLoading.step-due s.file s.parse s.save s.state e;
}

-- `SFTPDevice`.
abbrev pub sftp_device : Device Completion
sftp_device = record {
  Phase = SftpDownload.Device × SftpDownload.State;
  Input = SftpDownload.Event;
  step = λ s e. ((s.0, (SftpDownload.step s.0 s.1 e).0), callbacks (SftpDownload.step s.0 s.1 e).1);
  due = λ s. SftpDelivery.due s.1;
  due_at_most_one = λ s. sftp_at_most_one s.1;
  made_is_due = λ s e. SftpDelivery.step-due s.0 s.1 e;
}

-- The device that `IPFSLoader` makes for a load with an external Bitswap instance.
pub ipfs_at_most : (d : Ipfs.IpfsDevice) → Alone.IsAlone d → length d.posted ≤ 1
ipfs_at_most d a = omega (arith, a.one)

abbrev pub ipfs_device : Device Completion
ipfs_device = record {
  Phase = (d : Ipfs.IpfsDevice) × Alone.IsAlone d;
  Input = Ipfs.Event;
  step = λ d e. (
    (Ipfs.step d.0 e, Alone.step-IsAlone d.0 e d.1),
    new_posts d.0.posted (Ipfs.step d.0 e).posted,
  );
  due = λ d. length d.0.posted;
  due_at_most_one = λ d. ipfs_at_most d.0 d.1;
  made_is_due = λ d e.
      new_posts-length d.0.posted (Ipfs.step d.0 e).posted (step-Grows d.0 e)
        (ipfs_at_most (Ipfs.step d.0 e) (Alone.step-IsAlone d.0 e d.1));
}

-- 1 when the publication has ended.
abbrev pub publication_due : IpfsSaver.State → ℕ
publication_due IpfsSaver.publishing = 0
publication_due IpfsSaver.finished = 1
publication_due (IpfsSaver.thrown left) = 0

pub publication_at_most_one : (s : IpfsSaver.State) → publication_due s ≤ 1
publication_at_most_one s = ground arith

pub publication_made :
    (t : IpfsSaver.Setting) (s : IpfsSaver.State) (e : IpfsSaver.Event)
    → length (callbacks (IpfsSaver.step t s e).1) + publication_due s
      ≡ publication_due (IpfsSaver.step t s e).0
publication_made t s e = ground (arith, IpfsBalance.step-counts t s e)

-- A publication of `IPFSSaver`.
abbrev pub publication : Device (Unit {0})
publication = record {
  Phase = IpfsSaver.Setting × IpfsSaver.State;
  Input = IpfsSaver.Event;
  step = λ s e. ((s.0, (IpfsSaver.step s.0 s.1 e).0), callbacks (IpfsSaver.step s.0 s.1 e).1);
  due = λ s. publication_due s.1;
  due_at_most_one = λ s. publication_at_most_one s.1;
  made_is_due = λ s e. publication_made s.0 s.1 e;
}

-- The calls that a counter of calls has risen by, from at most one.
abbrev pub new_calls : ℕ → ℕ → List (Unit {0})
new_calls old new = if old == new then [] else tt ∷ []

pub new_calls-length : (old new : ℕ) → old ≤ new → new ≤ 1 → length (new_calls old new) + old ≡ new
new_calls-length old new up most = ground arith

-- A save of `SFTPSaver`, with the count that its uploads share.
pub sftp_at_most : (s : SftpSaver.Saving) → FanIn.IsCounted s → s.calls ≤ 1
sftp_at_most s c = ground (arith, c.called)

abbrev pub sftp_saving : Device (Unit {0})
sftp_saving = record {
  Phase = (s : SftpSaver.Saving) × FanIn.IsCounted s;
  Input = SftpSaver.Event;
  step = λ s e. (
    (SftpSaver.step s.0 e, FanIn.step-IsCounted s.0 e s.1),
    new_calls s.0.calls (SftpSaver.step s.0 e).calls,
  );
  due = λ s. s.0.calls;
  due_at_most_one = λ s. sftp_at_most s.0 s.1;
  made_is_due = λ s e.
      new_calls-length s.0.calls (SftpSaver.step s.0 e).calls (FanIn.step-calls s.0 e)
        (sftp_at_most (SftpSaver.step s.0 e) (FanIn.step-IsCounted s.0 e s.1));
}

-- A save of `MNNSaver`, with the count that its writes share.
pub local_at_most : (s : Local.Saving) → LocalWrites.IsCounted s → s.calls ≤ 1
local_at_most s c = (LocalWrites.complete-calls s Local.write_done c).0

abbrev pub local_saving : Device (Unit {0})
local_saving = record {
  Phase = (s : Local.Saving) × LocalWrites.IsCounted s;
  Input = Local.Completed;
  step = λ s e. (
    (Local.complete s.0 e, LocalWrites.complete-IsCounted s.0 e s.1),
    new_calls s.0.calls (Local.complete s.0 e).calls,
  );
  due = λ s. s.0.calls;
  due_at_most_one = λ s. local_at_most s.0 s.1;
  made_is_due = λ s e.
      new_calls-length s.0.calls (Local.complete s.0 e).calls
        (LocalWrites.complete-calls s.0 e s.1).1
        (local_at_most (Local.complete s.0 e) (LocalWrites.complete-IsCounted s.0 e s.1));
}

-- The devices that the loaders of the library put into the io_context for one load each; a callback may have been posted by the time the loader returns.
abbrev pub devices : Device Completion
devices =
    either http_device (either ws_device (either file_device (either sftp_device ipfs_device)))

abbrev pub loaders : Device Completion
loaders = posting devices

abbrev pub savers : Device (Unit {0})
savers = posting (either publication (either sftp_saving local_saving))

-- The phase in which a loader leaves its device.
abbrev pub left_in : {S C Op : Type 0} → S → List (Action Op C) → Posting S C
left_in s acts = elim (callbacks acts) [ [] ↦ awaits s | c ∷ cs ↦ posted c ]
