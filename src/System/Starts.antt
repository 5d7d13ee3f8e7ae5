-- ===== src/System/Starts.antt =====
-- The phase in which an asynchronous load leaves its device (src/HTTPLoader.cpp, src/WSLoader.cpp,
-- src/MNNLoader.cpp, src/SFTPLoader.cpp, src/IPFSLoader.cpp).
use async_iomanager.Common.{ℕ, Bool, true, List, [], ◌∷◌, Bytes, length, inl, inr, ◌≡◌, refl, arith}
use async_iomanager.Io.{Completion, Action, call, returned, callbacks, made}
use async_iomanager.System.Interface.{Device, awaits, posted, posting_due}
use async_iomanager.Http
use async_iomanager.Http.Delivery as HttpDelivery
use async_iomanager.Ws
use async_iomanager.Ws.Delivery as WsDelivery
use async_iomanager.Local
use async_iomanager.Local.Loading as LocalLoading
use async_iomanager.SftpDownload
use async_iomanager.SftpDownload.Delivery as SftpDelivery
use async_iomanager.Ipfs
use async_iomanager.Ipfs.Alone as Alone
use async_iomanager.System.Instances.{loaders, devices, left_in}

left_in-posting_due :
    {Op C : Type 0} (d : Device C) (s : d.Phase) (acts : List (Action Op C))
    → made acts ≡ d.due s
    → posting_due d (left_in s acts) ≡ 0
left_in-posting_due {C = C} d s acts e = by_case (callbacks acts) e
  where
    by_case :
        (cs : List C)
        → length cs ≡ d.due s
        → posting_due d (elim cs [ [] ↦ awaits s | c ∷ rest ↦ posted c ]) ≡ 0
    by_case [] e = omega arith
    by_case (c ∷ cs) e = refl

-- The phases in which the loaders leave their devices.
abbrev pub http_phase : Http.HttpDevice → Http.State × Http.Actions → loaders.Phase
http_phase d (s, acts) = left_in (inl (d, s)) acts

abbrev pub ws_phase : Ws.WsDevice → Ws.State × Ws.Actions → loaders.Phase
ws_phase d (s, acts) = left_in (inr (inl (d, s))) acts

abbrev pub file_phase :
    Bytes → Bool → Bool → Local.State × List (Action Local.Op Completion) → loaders.Phase
file_phase file parse save (s, acts) =
    left_in (inr (inr (inl (record { file = file; parse = parse; save = save; state = s })))) acts

abbrev pub sftp_phase :
    SftpDownload.Device × (SftpDownload.State × SftpDownload.Actions) → loaders.Phase
sftp_phase (d, (s, acts)) = left_in (inr (inr (inr (inl (d, s))))) acts

-- The completions that a device of IPFS has made.
abbrev pub completions : List (ℕ × Completion) → List (Action (Unit {0}) Completion)
completions [] = []
completions (p ∷ ps) = call p.1 ∷ completions ps

made-completions : (ps : List (ℕ × Completion)) → made (completions ps) ≡ length ps
made-completions [] = refl
made-completions (p ∷ ps) = omega (arith, made-completions ps)

abbrev pub ipfs_phase : (d : Ipfs.IpfsDevice) → Alone.IsAlone d → loaders.Phase
ipfs_phase d a = left_in (inr (inr (inr (inr (d, a))))) (completions d.posted)

-- A `LoadASync` of the HTTPS, the local or the SFTP loader that returns, one of the WebSocket loader
-- whose host resolves, and one of the IPFS loader that uses an external Bitswap instance, leaves a device that has not made its callback: it waits, or the
-- callback is posted. So the system of `FileManager` takes it.
pub loads_start :
    (file : Bytes) (parse save : Bool) (calls : List Bool) (resolved sni_set opens : Bool)
    (reason : Bytes) (http : Http.HttpDevice) (ws : Ws.WsDevice) (request : Ipfs.Request)
    (dht is_cid created : Bool) (r : Http.State × Http.Actions)
    → Http.load_async file parse save calls resolved sni_set reason ≡ returned r
    → (loaders.due (http_phase http r) ≡ 0)
      × (loaders.due (ws_phase ws (Ws.load_async file true)) ≡ 0)
      × (loaders.due (file_phase file parse save (Local.load_async file opens)) ≡ 0)
      × (loaders.due (sftp_phase (SftpDownload.load_async file parse save resolved)) ≡ 0)
      × (loaders.due (
            ipfs_phase
              (Ipfs.load_async_external request dht is_cid created)
              (Alone.start_external request dht is_cid created))
          ≡ 0)
loads_start file parse save calls resolved sni_set opens reason http ws request dht is_cid created
      (s, acts) e =
    (
      left_in-posting_due devices (inl (http, s)) acts
          (HttpDelivery.load_async-due file parse save calls resolved sni_set reason s acts e),
      left_in-posting_due devices (inr (inl (ws, (Ws.load_async file true).0)))
          (Ws.load_async file true).1 (WsDelivery.load_async-due file _ _ refl).0,
      left_in-posting_due devices
          (inr (
            inr (
              inl (record {
                file = file;
                parse = parse;
                save = save;
                state = (Local.load_async file opens).0;
              }))))
          (Local.load_async file opens).1 (LocalLoading.load_async-due file opens),
      left_in-posting_due devices
          (inr (
            inr (
              inr (
                inl (
                  (SftpDownload.load_async file parse save resolved).0,
                  (SftpDownload.load_async file parse save resolved).1.0,
                )))))
          (SftpDownload.load_async file parse save resolved).1.1
          (SftpDelivery.load_async-due file parse save resolved),
      left_in-posting_due devices
          (inr (
            inr (
              inr (
                inr (
                  Ipfs.load_async_external request dht is_cid created,
                  Alone.start_external request dht is_cid created,
                )))))
          (completions (Ipfs.load_async_external request dht is_cid created).posted)
          (made-completions (Ipfs.load_async_external request dht is_cid created).posted),
    )
