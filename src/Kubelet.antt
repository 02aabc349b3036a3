-- ===== src/Kubelet.antt =====
-- pkg/kubelet/kubelet.go. `Kubelet/Status` has the status of a pod from its containers,
-- `Kubelet/Docker` the calls of the Docker client, `Kubelet/Pods` the pods that the kubelet knows,
-- `Kubelet/Containers` what it does with the containers of Docker. The others are proofs.
pub mod Status
pub mod Docker
pub mod Pods
pub mod Containers
pub mod Classification
pub mod Assignment
pub mod Rounds
pub mod Ticks
pub mod Reported
pub mod Managed
pub mod Started
pub mod Cleaned
