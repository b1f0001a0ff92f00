-- ===== src/Bus/Protocol.antt =====
-- What the daemons say to each other and to others: by which bus, to whom, and what.
use storm_node.Base.{Bool, true, false, ◌&&◌, ◌==◌, List, [], ◌∷◌, nat_eq}
use storm_node.Wire.{DaemonId, BifrostApp, StormApp, LnMsg}
use storm_node.Rpc.Ids.{ServiceId, is_stormd}
use storm_node.Ext.{ExtMsg}
use storm_node.Bus.{ServiceBus, CtlMsg, BusMsg, Packet}

-- What a transfer daemon can be told to do.
abbrev pub is_instruction : CtlMsg → Bool
is_instruction CtlMsg.hello = false
is_instruction CtlMsg.processing_complete = false
is_instruction CtlMsg.processing_failed = false
is_instruction _ = true

abbrev pub all_instructions : List CtlMsg → Bool
all_instructions [] = true
all_instructions (msg ∷ msgs) = is_instruction msg && all_instructions msgs

-- What a transfer daemon tells stormd.
abbrev pub is_report : CtlMsg → Bool
is_report CtlMsg.hello = true
is_report CtlMsg.processing_complete = true
is_report _ = false

-- What chatd and downpourd ask of stormd.
abbrev pub is_chat_request : ExtMsg → Bool
is_chat_request (ExtMsg.post _) = true
is_chat_request _ = false

abbrev pub is_file_request : ExtMsg → Bool
is_file_request (ExtMsg.retrieve_container _) = true
is_file_request (ExtMsg.send_container _) = true
is_file_request _ = false

abbrev pub is_transfer : DaemonId → ServiceId → Bool
is_transfer d (ServiceId.transfer e) = d == e
is_transfer d _ = false

abbrev pub is_app : StormApp → ServiceId → Bool
is_app StormApp.chat (ServiceId.storm_app StormApp.chat) = true
is_app StormApp.file_transfer (ServiceId.storm_app StormApp.file_transfer) = true
is_app _ _ = false

-- By the bus, the receiver and the message.
abbrev storm_words : ServiceBus → ServiceId → BusMsg → Bool
storm_words ServiceBus.ctl (ServiceId.transfer d) (BusMsg.ctl msg) = is_instruction msg
storm_words ServiceBus.rpc (ServiceId.client c) (BusMsg.rpc msg) = true
storm_words ServiceBus.msg (ServiceId.peer n) (BusMsg.bifrost (LnMsg.message BifrostApp.storm b)) =
    true
storm_words ServiceBus.storm (ServiceId.storm_app a) (BusMsg.storm msg) = true
storm_words _ _ _ = false

abbrev transfer_words : ServiceBus → ServiceId → BusMsg → Bool
transfer_words ServiceBus.ctl dest (BusMsg.ctl msg) = is_stormd dest && is_report msg
transfer_words ServiceBus.rpc (ServiceId.client c) (BusMsg.rpc msg) = true
transfer_words ServiceBus.msg (ServiceId.peer n)
      (BusMsg.bifrost (LnMsg.message BifrostApp.storm b)) =
    true
transfer_words _ _ _ = false

abbrev is_hello : CtlMsg → Bool
is_hello CtlMsg.hello = true
is_hello _ = false

abbrev chat_words : ServiceBus → ServiceId → BusMsg → Bool
chat_words ServiceBus.ctl dest (BusMsg.ctl msg) = is_stormd dest && is_hello msg
chat_words ServiceBus.storm dest (BusMsg.storm msg) = is_stormd dest && is_chat_request msg
chat_words ServiceBus.chat dest (BusMsg.chat msg) = is_stormd dest
chat_words _ _ _ = false

abbrev file_words : ServiceBus → ServiceId → BusMsg → Bool
file_words ServiceBus.ctl dest (BusMsg.ctl msg) = is_stormd dest && is_hello msg
file_words ServiceBus.storm dest (BusMsg.storm msg) = is_stormd dest && is_file_request msg
file_words _ _ _ = false

-- What each daemon says, under its own name.
abbrev pub stormd_says : Packet → Bool
stormd_says packet = is_stormd packet.source && storm_words packet.bus packet.dest packet.request

abbrev pub transferd_says : DaemonId → Packet → Bool
transferd_says d packet =
    is_transfer d packet.source && transfer_words packet.bus packet.dest packet.request

abbrev pub chatd_says : Packet → Bool
chatd_says packet =
    is_app StormApp.chat packet.source && chat_words packet.bus packet.dest packet.request

abbrev pub downpourd_says : Packet → Bool
downpourd_says packet =
    is_app StormApp.file_transfer packet.source && file_words packet.bus packet.dest packet.request
