-- ===== src/Storage.antt =====
-- pkg/storage. `Storage/Interface` has the interface that the registries use,
-- `Storage/Rows` the ordered map of encoded objects that it promises, `Storage/Etcd` the
-- implementation over an etcd client, `Storage/Refinement` that it keeps the promise,
-- `Storage/Embedded` the etcd server inside a process, `Storage/Ordered` the order of the rows,
-- `Storage/Faults` an etcd of which calls fail.
pub mod Interface
pub mod Rows
pub mod Ordered
pub mod Etcd
pub mod Refinement
pub mod Embedded
pub mod Faults
