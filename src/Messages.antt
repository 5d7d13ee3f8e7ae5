-- ===== src/Messages.antt =====
-- The texts of the error codes: the categories of src/HTTPCommon.cpp, src/HTTPLoader.cpp,
-- src/WSCommon.cpp, src/WSLoader.cpp, src/IPFSCommon.cpp, src/IPFSLoader.cpp and src/MNNLoader.cpp.
use async_iomanager.Common.{Bytes, codes, length, ◌≡◌, ap, arith}
use async_iomanager.Io.{
  HttpError, WsError, IpfsDeviceError, IpfsLoaderError, MnnLoaderError, ErrorCode, http_device,
  ws_device, ipfs_device, ipfs_loader, mnn_loader, http_invalid_url, ws_invalid_url,
}

abbrev pub http_message : HttpError → Bytes
http_message HttpError.could_not_resolve = codes "HTTP Could not resolve address"
http_message HttpError.handshake_error = codes "HTTP Handshake Error"
http_message HttpError.connect_error = codes "HTTP Connect Error"
http_message HttpError.con_interrupt = codes "HTTP Read Error. Connection interrupted."
http_message HttpError.no_header = codes "HTTP Data Read failed. No header."
http_message HttpError.req_failed = codes "HTTP Data Read failed. Get Request Fail."
http_message HttpError.timeout = codes "HTTP operation timed out"

abbrev pub ws_message : WsError → Bytes
ws_message WsError.could_not_resolve = codes "Could not resolve address"
ws_message WsError.handshake_error = codes "WSS HTTP Handshake Error"
ws_message WsError.connect_error = codes "WSS Connect Error"
ws_message WsError.no_eof = codes "Data missing EOF"
ws_message WsError.ws_handshake_error = codes "WSS WSS Handshake Error"

abbrev pub ipfs_device_message : IpfsDeviceError → Bytes
ipfs_device_message IpfsDeviceError.cannot_decode = codes "Cannot decode bitswap data"
ipfs_device_message IpfsDeviceError.no_source = codes "Cannot decode bitswap data"

abbrev pub ipfs_loader_message : IpfsLoaderError → Bytes
ipfs_loader_message IpfsLoaderError.cannot_listen = codes "Cannot listen on address"
ipfs_loader_message IpfsLoaderError.bad_cid = codes "IPFS CID is invalid"
ipfs_loader_message IpfsLoaderError.invalid_url = codes "Invalid URL"

abbrev pub mnn_loader_message : MnnLoaderError → Bytes
mnn_loader_message MnnLoaderError.read_error = codes "File could not be read"
mnn_loader_message MnnLoaderError.file_open_fail = codes "File could not be opened"

abbrev pub message : ErrorCode → Bytes
message (http_device e) = http_message e
message (ws_device e) = ws_message e
message (ipfs_device e) = ipfs_device_message e
message (ipfs_loader e) = ipfs_loader_message e
message (mnn_loader e) = mnn_loader_message e
message http_invalid_url = codes "Invalid URL"
message ws_invalid_url = codes "Invalid URL"

http_message-injective : (e f : HttpError) → http_message e ≡ http_message f → e ≡ f
http_message-injective e f h = ground (arith, ap length h)

ws_message-injective : (e f : WsError) → ws_message e ≡ ws_message f → e ≡ f
ws_message-injective e f h = ground (arith, ap length h)

ipfs_loader_message-injective :
    (e f : IpfsLoaderError) → ipfs_loader_message e ≡ ipfs_loader_message f → e ≡ f
ipfs_loader_message-injective e f h = ground (arith, ap length h)

mnn_loader_message-injective :
    (e f : MnnLoaderError) → mnn_loader_message e ≡ mnn_loader_message f → e ≡ f
mnn_loader_message-injective e f h = ground (arith, ap length h)
