-- ===== src/Lib.antt =====
-- NetMate, a network meter: packets are taken from a tap, classified by filter rules, queued, and
-- handed to processing modules that keep statistics for each flow; rules are added, activated,
-- exported and removed by events that wait in a queue for their time.
--
-- The parts that are modelled, with paths from the repository's root:
-- - IdSource: src/netmate/RuleIdSource.cc, the numbers of rules and flows. `new_id` is newId and
--   `free_id` freeId; the counter wraps at 2^64.
-- - Timeval: src/netmate/Timeval.cc. The static members are the record `Clock`; the system's clock is
--   an argument.
-- - PacketQueue: src/netmate/PacketQueue.h and .cc, the ring of packets between classifier and
--   processor. A call under the lock is a function from the queue to the queue and its result. The
--   children relate the ring to the list of its packets.
-- - Scheduler: src/netmate/Event.h, Event.cc, EventScheduler.h and EventScheduler.cc, the timed events
--   and their queue, a list in the order of the times. `less` is the comparison lttv.
-- - Classifier: src/netmate/ClassifierSimple.cc. `classify` is the loop over the rules, with the early
--   return and the thrown error as values; Classifier.Update has addRules and delRules.
-- - RuleManager: src/netmate/RuleManager.cc. It takes uids from IdSource, keeps rules in a vector and
--   an index of names, and puts events into and out of the queue of Scheduler; RuleManager.Batch has
--   addRules.
-- - FlowRecords: src/netmate/FlowRecordDB.cc, with the loop of src/netmate/Exporter.cc that empties
--   its queue. A record is a number; what is freed is a list of these. FlowRecords.History runs any
--   sequence of calls.
-- - Bitmap: src/netmate/Bitmap.cc, the sets of rules of the RFC classifier. Bitmap.Words has the words
--   and `bmAnd`, Bitmap.Compare the order.
-- - FlowStats: src/proc_modules/netai_flowstats.c, a processing module: the TCP states, the record of
--   a flow, `processPacket` and `exportData` (Export), with a failed assertion as a value.
-- - ProcModule: src/include/ProcModuleInterface.h and metadata.h, what the processor calls of a
--   processing module: functions on the module's flow data, which may be freed.
-- - FlowCreator: src/netmate/FlowCreator.h and .cc, the flows of a rule by their keys, an association
--   list for the hash table; FlowCreator.Lookup has its laws.
-- - PacketProcessor: src/netmate/PacketProcessor.h and .cc. Key builds the flow keys, Process and
--   Dispatch are processPacket, Export is exportRule and ruleTimeout, Rules is addRule, delRule and
--   timeout. It uses the flows of FlowCreator, the modules of ProcModule and the records of
--   MetricData. A use of flow data that was freed is `none`, and so is a write behind a key's buffer.
--   PacketProcessor.Sequence runs it on any sequence of packets.
-- - MetricData: src/netmate/MetricData.cc, the buffers of flow data and keys that the processor fills;
--   MetricData.Reader has the cursors by which the export modules read them, and MetricData.RoundTrip
--   the loop of src/export_modules/netai_arff.cc over the columns of a row.
-- - ExportData: src/proc_modules/ProcModule.c, the functions by which processing modules write the
--   data that they export.
-- - Modules: src/proc_modules/count.c and pktlen.c, modules as the interface ProcModule sees them.
-- - ExportList: src/netmate/ExportList.cc, the tables that a module exports.
-- - ParserFcts: src/netmate/ParserFcts.cc, numbers, truth values and addresses from text, with strtol
--   and strtoul of the C library in ParserFcts.Strto. A text is a list of its bytes.
-- - FilterValue: src/netmate/FilterValue.h and .cc, the bytes of a filter's value; it parses by
--   ParserFcts.
-- - Common: signed numbers, lists and maps that the parts share.
--
-- The loops of the source are structural recursion here, but for the one over the type information
-- in ExportList: it has a round of fuel for each entry, and every round takes one at least. `long` and
-- `time_t` have 64 bits, where numbers are read from text or compared with the time. Unsigned counters and
-- microseconds wrap where the source's do; the overflow of a signed count of periods in FlowStats has no
-- result, and the other `int` counters are unbounded. A `double` is
-- either a parameter (FlowStats) or a whole number of microseconds below 2^53 (Scheduler, Timeval).
--
-- Not modelled: the parsers of files, the network taps, threads, sockets and the rest of the export modules,
-- which are input and output or calls of libraries; the logger; the RFC classifier, the
-- cursors over flow keys and labels, and the other processing modules.
pub mod Common
pub mod IdSource
pub mod Timeval
pub mod PacketQueue
pub mod FlowStats
pub mod Scheduler
pub mod Classifier
pub mod RuleManager
pub mod FlowRecords
pub mod Bitmap
pub mod ProcModule
pub mod FlowCreator
pub mod MetricData
pub mod ExportList
pub mod ParserFcts
pub mod FilterValue
pub mod PacketProcessor
pub mod ExportData
pub mod Modules
