-- ===== src/Lib.antt =====
-- The Power API prototype: the events that its parts exchange, the channel that carries them, the
-- objects of a client and of a server, and the router of the daemon between them.
--
-- A program measures and controls objects (nodes, sockets, cores) through a context. For objects of
-- other machines the context sends events over TCP to a daemon; a router of the daemon passes a
-- request on to the servers that own the objects, over other routers if it must, merges their
-- responses, and answers with one.
--
-- Prelude     what the modules share: tests, lists, maps, words.
-- Chars       the `std::string` searches, `substr` and `atoi` as the sources use them, and in
--             Chars/Fields what they do to a text with separators.
-- Serial      src/pwr/serialize.h: `out` is out_bytes, `in` is in_bytes, `<<` and `>>` of a vector are
--             push_vector and pull_vector. A Codec is a type's pair of operators. The head of a Buf is
--             the back of the vector of bytes.
-- Events      src/pwr/event.h, events.h, eventType.h: a record per class, *_out and *_in for
--             `serialize_out` and `serialize_in`. Events/Requests and Events/Responses have the larger
--             ones, Events/Routed tools/pwrdaemon/router/routerEvent.h, and Events/Message the sum of
--             the classes with the allocators of the receivers (src/pwr/allocEvent.cc,
--             tools/pwrdaemon/router/allocEvent.cc, tools/pwrdaemon/server/allocEvent.cc).
-- Channel     src/pwr/tcpEventChannel.cc: `sendEvent` is send_event, `getEvent` is get_event;
--             Channel/Config the text that configures a channel, and what its constructor makes of it,
--             and Channel/Wait `TcpChannelSelect::wait`.
-- Router      tools/pwrdaemon/router: Ids the macros of router.h; Table `initRouteTable` and
--             `findRoute`; Tree treeCore.cc and `initTreeInfo`; Send `sendEvent`, `doPending`,
--             `addServer`, `delServer` and what they call; Collect the responses of commRespEvent.h to a
--             request of commReqEvent.h; Clients client.cc, commCreateEvent.cc and the sending of
--             requests, and Clients/Logs commLogEvents.h and commGetSamplesEvent.h; Select `work` and
--             routerSelect.cc; Core the constructors of treeCore.cc, torusCore.cc and `Router`; Args
--             `initArgs` and `initTorusInfo`.
-- Names       src/pwr/util.h, and the names in src/pwr/xmlConfig.cc: the enumerations and their texts.
-- Objects     src/pwr/object.cc, status.h, attrInfo.h: attr_get_values, attr_set_values and what they
--             call; Objects/Groups the members of src/pwr/group.h; Objects/Samples `attrGetSamples`.
-- Dist        what a context keeps of its distributed objects. Request is src/pwr/distRequest.cc and
--             request.h, Comm src/pwr/distComm.cc and distGrpComm.cc, Object src/pwr/distObject.cc
--             (Object/Samples its samples), Group src/pwr/distGroup.cc, Cntxt src/pwr/distCntxt.cc. Ctx
--             is the store of live requests, their parts and communicators, by address, with the events
--             sent.
-- Context     src/pwr/cntxt.cc: the objects of a context by name, and its groups, as src/pwr/distCntxt.cc
--             makes and destroys them; Context/Stats its statistics, with src/pwr/stat.h and
--             deviceStat.cc.
-- XmlConfig   src/pwr/xmlConfig.cc: the queries over the document of the configuration, with their
--             names.
-- Rapl        src/plugins/pwr_rapldev.c: the plugin for the energy counters of Intel processors.
-- Server      tools/pwrdaemon/server: what a server does with a request for its own objects, and the
--             response that the callback of the request sends; Server/Routed what it does with an event
--             that a router sends.
-- Tests       the theorems at concrete inputs.
--
-- An integer is a natural number with the wrap-around written out, a `double` its 64 bits, a
-- text a list of bytes, a channel its identity. A failed assertion, an exception or an access
-- out of bounds is `none`. `atoi` is that of the GNU library, which is `strtol` cut to 32 bits.
-- The loops are structural recursion, over the bytes, the items, the lines, the events or the
-- responses. Only `traverse` of Dist/Cntxt and `find_all_obj_type` of Context go down a tree
-- that the configuration describes by name: they take a depth, which each level of the tree
-- lowers by one, so that more than the length of the longest path of children is never used; and
-- `split` of Channel/Config and `find_obj_location` of XmlConfig take as fuel the length of the
-- text, one more for the latter, of which a round takes one character at least.
--
-- Parameters: the socket of Channel, a record of `read` and `write` with their documented
-- behaviour, that the bytes written come out in order and that a read of bytes that are there is
-- whole, which the source asserts; the sum of two doubles in Router/Collect and Router/Send; the
-- devices of Objects, as DeviceOps declares them; in Dist/Cntxt the interface Config of
-- src/pwr/config.h and the `init` of the plugins, and in Context what is used of the same
-- interface; in XmlConfig the tree of the tinyxml2 library, as the attributes and the children of
-- its nodes; in Router/Args what `getopt_long` gives and the contents of the file of routes; in
-- Channel/Wait the descriptors of the channels and what the select call leaves in its set; in
-- Router/Select what comes on the channel that is chosen; in Context/Stats and in
-- Rapl the operations on doubles; in Rapl the registers and the clock; the lookups between names
-- and objects in Dist and Server; and `unset`, the content of a member that no constructor writes.
--
-- Not modelled: a RouterEvent inside a RouterEvent, which no part makes, is `none` in
-- Router/Send; the memory of the events (a value is kept where the source keeps a pointer), but
-- for the RouterEvents that wait in Router/Send, whose pointers are deleted; the connections of
-- the operating system, and the loops of the server and of a context around their channels; the
-- constructor of a context; the loops of Grp over the attributes, which DistGrp overrides; of
-- the configuration files the loading and the printing of a document, and pyConfig.cc, which
-- calls the Python interpreter; what a statistic computes from its samples, which is arithmetic
-- on doubles; of the device plugins those but pwr_rapldev.c, and its search of /proc/cpuinfo;
-- the command-line tools.
pub mod Prelude
pub mod Chars
pub mod Serial
pub mod Context
pub mod Dist
pub mod Events
pub mod Channel
pub mod Names
pub mod Objects
pub mod Router
pub mod Server
pub mod Rapl
pub mod XmlConfig
pub mod Tests
