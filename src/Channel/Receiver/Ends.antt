-- ===== src/Channel/Receiver/Ends.antt =====
-- A round of `CommBase::rx_thread` (EIBCommNEO/CommBase.cpp) comes to its end.
use edifice.Frame.Types.{Frame}
use edifice.Channel.Parser.Leaves.{Leaves}
use edifice.Channel.Receiver.{Receiver}
